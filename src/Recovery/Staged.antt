-- ===== src/Recovery/Staged.antt =====
-- What the journal holds of the blocks that were staged.
use libgeodesk.Common.{
  ℕ, ◌+◌, ◌≤◌, ◌<◌, ◌≡◌, ◌⊎◌, inl, inr, refl, ap, sym, ◌∙◌, arith, List, [], ◌∷◌, ◌++◌, All, length,
  true, Bool-cases,
}
use libgeodesk.DiskFile.{DiskFile}
use libgeodesk.Journal.{Journal, add_block}
use libgeodesk.Journal.Stream.{Block, add_blocks}
use libgeodesk.Journal.Recover.{InBlocks, IsSaved}
use libgeodesk.Recovery.{Staging, stage_block, has_offset}

InBlocks-append_left : (xs bs : List Block) (i : ℕ) → InBlocks xs i → InBlocks (xs ++ bs) i
InBlocks-append_left [] bs i h = absurd h
InBlocks-append_left (a ∷ xs) bs i (inl h) = inl h
InBlocks-append_left (a ∷ xs) bs i (inr h) = inr (InBlocks-append_left xs bs i h)

InBlocks-append_right : (xs bs : List Block) (i : ℕ) → InBlocks bs i → InBlocks (xs ++ bs) i
InBlocks-append_right [] bs i h = h
InBlocks-append_right (a ∷ xs) bs i h = inr (InBlocks-append_right xs bs i h)

IsSaved-append :
    (old : List ℕ) (xs bs : List Block)
    → All (IsSaved old) xs
    → All (IsSaved old) bs
    → All (IsSaved old) (xs ++ bs)
IsSaved-append old [] bs h k = k
IsSaved-append old (a ∷ xs) bs (h, hs) k = (h, IsSaved-append old xs bs hs k)

module _ (d : DiskFile) where
  abbrev pub stage_blocks : Staging d → List Block → Staging d
  stage_blocks s [] = s
  stage_blocks s ((ofs, content) ∷ requests) = stage_blocks (stage_block d s ofs content) requests

  add_blocks-snoc :
      (bs : List Block) (j : Journal d) (ofs : ℕ) (block : List ℕ)
      → add_blocks d j (bs ++ ((ofs, block) ∷ [])) ≡ add_block d (add_blocks d j bs) ofs block
  add_blocks-snoc [] j ofs block = refl
  add_blocks-snoc ((o, b) ∷ bs) j ofs block = add_blocks-snoc bs (add_block d j o b) ofs block

  -- The journal has a copy of every edited block, with the content of `old`.
  pub record IsLogged (old : List ℕ) (start : Journal d) (s : Staging d) : Type 0 where
    pub blocks : List Block
    pub log_is : s.log ≡ add_blocks d start blocks
    pub saved : All (IsSaved old) blocks
    pub inside : (ofs : ℕ) → has_offset ofs s.edited ≡ true → ofs + 4096 ≤ length old
    pub covers :
        (ofs i : ℕ) → has_offset ofs s.edited ≡ true → ofs ≤ i → i < ofs + 4096 → InBlocks blocks i

  has_offset-cons :
      (ofs x : ℕ) (xs : List ℕ)
      → has_offset ofs (x ∷ xs) ≡ true
      → (x ≡ ofs) ⊎ (has_offset ofs xs ≡ true)
  unfolding has_offset
  has_offset-cons ofs x xs h = ground arith

  stage_block-IsLogged :
      (old : List ℕ) (start : Journal d) (s : Staging d) (ofs : ℕ) (content : List ℕ)
      → IsSaved old (ofs, content)
      → IsLogged old start s
      → IsLogged old start (stage_block d s ofs content)
  unfolding stage_block
  stage_block-IsLogged old start s ofs content here h =
      elim (Bool-cases (has_offset ofs s.edited)) [
        | inl held ↦ rw held h
        | inr new ↦ rw new (record {
          blocks = h.blocks ++ ((ofs, content) ∷ []);
          log_is =
              ap (λ (j : Journal d). add_block d j ofs content) h.log_is
              ∙ sym (add_blocks-snoc h.blocks start ofs content);
          saved = IsSaved-append old h.blocks ((ofs, content) ∷ []) h.saved (here, tt);
          inside = λ k held. elim (has_offset-cons k ofs s.edited held) [
            | inl same ↦ let (_, fits, _) = here in omega arith
            | inr was ↦ h.inside k was
          ];
          covers = λ k i held lo hi. elim (has_offset-cons k ofs s.edited held) [
            | inl same ↦
                InBlocks-append_right h.blocks ((ofs, content) ∷ []) i
                  (inl (omega arith, omega arith))
            | inr was ↦
                InBlocks-append_left h.blocks ((ofs, content) ∷ []) i (h.covers k i was lo hi)
          ];
        })
      ]

  pub stage_blocks-IsLogged :
      (old : List ℕ) (start : Journal d) (requests : List Block) (s : Staging d)
      → All (IsSaved old) requests
      → IsLogged old start s
      → IsLogged old start (stage_blocks s requests)
  stage_blocks-IsLogged old start [] s hs h = h
  stage_blocks-IsLogged old start ((ofs, content) ∷ requests) s (here, hs) h =
      stage_blocks-IsLogged old start requests _ hs
        (stage_block-IsLogged old start s ofs content here h)

  -- Nothing is staged at first.
  pub empty-IsLogged :
      (old : List ℕ) (start : Journal d) → IsLogged old start (record { edited = []; log = start })
  unfolding has_offset
  empty-IsLogged old start = record {
    blocks = [];
    log_is = refl;
    saved = tt;
    inside = λ ofs held. ground (arith, held);
    covers = λ ofs i held lo hi. ground (arith, held);
  }
