-- ===== src/TileIndexWalker/Next.antt =====
-- `next` gives the tiles of the tour one after the other, and a walk all of them.
use mathlib.Core.Option.{map}
use libgeodesk.Common.{ℕ, zero, suc, ◌<◌, ◌≤◌, ◌≡◌, refl, arith, Option, none, some, List}
use libgeodesk.TileIndex.{Query}
use libgeodesk.TileIndexWalker.{
  Walker, Move, again, arrived, no_level, finished, advance, next_loop, next, all_rounds, northwest,
  remember, rounds,
}
use libgeodesk.TileIndexWalker.Tour.{Trace, Stop, done, fault, visit}
use libgeodesk.TileIndexWalker.Placed.{IsOrdered}
use libgeodesk.TileIndexWalker.Stack.{IsWalking, pending, left_rounds, Makes, stop}
use libgeodesk.TileIndexWalker.Advance.{advance_lem}

-- The tiles with their flags, where some tiles were accepted before.
pub record Visit : Type 0 where
  pub stop : Stop
  pub northwest_flags : ℕ

unfoldable pub flagged : Query → List ℕ → Trace Stop → Trace Visit
flagged q accepted done = done
flagged q accepted fault = fault
flagged q accepted (visit s t) =
    visit (record { stop = s; northwest_flags = northwest q accepted s.tile })
      (flagged q (remember q accepted s.tile) t)

abbrev pub visits {ℓ} : {A : Type ℓ} → Trace A → ℕ
visits done = 0
visits fault = 0
visits (visit a t) = suc (visits t)

-- What a client sees that calls `next` until the walk ends, at most n times.
unfoldable pub walk : ℕ → Query → Walker → Option (Trace Visit)
walk zero q w = none
walk (suc n) q w = elim (next q w) [
  | again w' ↦ none
  | arrived w' ↦
      map (visit (record { stop = stop w'; northwest_flags = w'.northwest_flags })) (walk n q w')
  | no_level w' ↦
      some (visit (record { stop = stop w'; northwest_flags = w'.northwest_flags }) fault)
  | finished ↦ some done
]

module _ (q : Query) (ordered : IsOrdered q.box) where
  continue_lem :
      (fuel : ℕ) (accepted : List ℕ) (t : Trace Stop) (n : ℕ) (m : Move)
      → ((w : Walker)
          → IsWalking q w
          → left_rounds w ≤ fuel
          → Makes q w.accepted_tiles (pending q w) 0 (next_loop fuel q w))
      → Makes q accepted t n m
      → n ≤ suc fuel
      → Makes q accepted t 0 (elim m [
        | again w' ↦ next_loop fuel q w'
        | arrived w' ↦ arrived w'
        | no_level w' ↦ no_level w'
        | finished ↦ finished
      ])
  continue_lem fuel accepted t n (again w) rest (walking, e, fewer, same) enough =
      rw (e, ← same) (rest w walking (omega arith))
  continue_lem fuel accepted t n (arrived w) rest made enough = made
  continue_lem fuel accepted t n (no_level w) rest made enough = made
  continue_lem fuel accepted t n finished rest made enough = made

  next_loop_lem :
      (fuel : ℕ) (w : Walker)
      → IsWalking q w
      → left_rounds w ≤ fuel
      → Makes q w.accepted_tiles (pending q w) 0 (next_loop fuel q w)
  unfolding next_loop all_rounds rounds
  next_loop_lem zero w walking enough = absurd (omega arith)
  next_loop_lem (suc fuel) w walking enough =
      continue_lem fuel w.accepted_tiles (pending q w) (left_rounds w) (advance q w)
        (next_loop_lem fuel) (advance_lem q w ordered walking) enough

  -- One call of `next`: it ends, and gives the first of the tiles that are left.
  pub next_lem : (w : Walker) → IsWalking q w → Makes q w.accepted_tiles (pending q w) 0 (next q w)
  unfolding next
  next_lem w walking = next_loop_lem (left_rounds w) w walking (omega arith)

  walk_step :
      (n : ℕ) (accepted : List ℕ) (t : Trace Stop) (m : Move)
      → ((w : Walker)
          → IsWalking q w
          → visits (pending q w) < n
          → walk n q w ≡ some (flagged q w.accepted_tiles (pending q w)))
      → Makes q accepted t 0 m
      → visits t ≤ n
      → (elim m [
        | again w' ↦ none
        | arrived w' ↦
            map
              (visit (record { stop = stop w'; northwest_flags = w'.northwest_flags }))
              (walk n q w')
        | no_level w' ↦
            some (visit (record { stop = stop w'; northwest_flags = w'.northwest_flags }) fault)
        | finished ↦ some done
      ])
        ≡ some (flagged q accepted t)
  unfolding flagged
  walk_step n accepted t (again w) rest (walking, e, fewer, same) enough = absurd (omega arith)
  walk_step n accepted t (arrived w) rest (walking, e, is_tile, skips) enough =
      let fewer : suc (visits (pending q w)) ≤ n = rw e at enough in
      rw (e, rest w walking fewer, is_tile.flags, is_tile.accepts) refl
  walk_step n accepted t (no_level w) rest (e, is_tile) enough = rw (e, is_tile.flags) refl
  walk_step n accepted t finished rest e enough = rw e refl

  pub walk-pending :
      (n : ℕ) (w : Walker)
      → IsWalking q w
      → visits (pending q w) < n
      → walk n q w ≡ some (flagged q w.accepted_tiles (pending q w))
  unfolding walk
  walk-pending zero w walking enough = absurd (omega arith)
  walk-pending (suc n) w walking enough =
      walk_step n w.accepted_tiles (pending q w) (next q w) (walk-pending n) (next_lem w walking)
        (omega arith)
