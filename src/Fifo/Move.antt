-- ===== src/Fifo/Move.antt =====
-- Moving elements from one fifo to another, `fifo_move` of libbcache/fifo.h.
use mathlib.Core.Path.{subst}
use bcache_tools.Fifo.Slots.{fifo_used-length}
use bcache_tools.Fifo.Refines.{operate-Refined}
use bcache_tools.Base.{
  Bool, Bool-cases, List, Option, [], ap, append_assoc, append_nil, arith, drop, false,
  if◌then◌else◌, inl, inr, length, length-append, min, none, refl, some, suc, take, true, zero, ℕ,
  ◌++◌, ◌-◌, ◌<◌, ◌==◌, ◌∷◌, ◌≡◌,
}
use bcache_tools.Fifo.{
  Answer, Fifo, back, fifo_full, fifo_move, pop, pop_front, popped, push_back, pushed,
}
use bcache_tools.Fifo.Queue.{Represents}

-- The first `n` elements are moved.
pub record Moved {A : Type 0} (result : Option (Fifo A × Fifo A)) (ds ss : List A) (n : ℕ)
    : Type 0 where
  pub dest : Fifo A
  pub src : Fifo A
  pub ends : result ≡ some (dest, src)
  pub dest_is : Represents dest (ds ++ take n ss)
  pub src_is : Represents src (drop n ss)

module _ {A : Type 0} where
  abbrev popped_of : Answer A → Option A
  popped_of (popped o) = o
  popped_of (pushed b) = none

  abbrev fst : List A × Answer A → List A
  fst (xs, a) = xs

  at_back :
      (f : Fifo A) (ds : List A) (x : A) (full : Bool)
      → full ≡ false
      → Represents f (fst (if full then (ds, pushed false) else (ds ++ x ∷ [], pushed true)))
      → Represents f (ds ++ x ∷ [])
  at_back f ds x true e h = cc
  at_back f ds x false e h = h

  -- Nothing is moved.
  fifo_move-stays :
      (result : Option (Fifo A × Fifo A)) (dest src : Fifo A) (ds ss : List A) (n : ℕ)
      → result ≡ some (dest, src)
      → Represents dest ds
      → Represents src ss
      → n ≡ 0
      → Moved result ds ss n
  fifo_move-stays result dest src ds ss n e hd hs z =
      rw z
        (record { dest = dest; src = src; ends = e; dest_is = rw (append_nil ds) hd; src_is = hs })

  -- `fifo_move` ends, and moves as many elements as the source has and the destination has room for, in
  -- their order: fuel for each element of the source and one more is enough.
  pub fifo_move-Moved :
      (fuel : ℕ) (dest src : Fifo A) (ds ss : List A)
      → Represents dest ds
      → Represents src ss
      → length ss < fuel
      → Moved (fifo_move fuel dest src) ds ss (min (dest.size - length ds) (length ss))
  unfolding fifo_move
  fifo_move-Moved zero dest src ds ss hd hs enough = absurd (omega arith)
  fifo_move-Moved (suc fuel) dest src ds [] hd hs enough =
      elim (Bool-cases (length ds == dest.size)) [
        | inl full ↦
            let full' : fifo_full dest ≡ true = rw (fifo_used-length dest ds hd) full in
            fifo_move-stays (fifo_move (suc fuel) dest src) dest src ds []
              (min (dest.size - length ds) 0) (rw (full', fifo_move) refl) hd hs (omega arith)
        | inr room ↦
            let room' : fifo_full dest ≡ false = rw (fifo_used-length dest ds hd) room in
            let r = operate-Refined src [] pop hs in
            let answer : (pop_front src).1 ≡ none = ap popped_of r.answer in
            fifo_move-stays (fifo_move (suc fuel) dest src) dest src ds []
              (min (dest.size - length ds) 0) (rw (room', answer, fifo_move) refl) hd hs
              (omega arith)
      ]
  fifo_move-Moved (suc fuel) dest src ds (x ∷ ss) hd hs enough =
      elim (Bool-cases (length ds == dest.size)) [
        | inl full ↦
            let full' : fifo_full dest ≡ true = rw (fifo_used-length dest ds hd) full in
            fifo_move-stays (fifo_move (suc fuel) dest src) dest src ds (x ∷ ss)
              (min (dest.size - length ds) (suc (length ss))) (rw (full', fifo_move) refl) hd hs
              (ground arith)
        | inr room ↦
            let room' : fifo_full dest ≡ false = rw (fifo_used-length dest ds hd) room in
            let r = operate-Refined src (x ∷ ss) pop hs in
            let answer : (pop_front src).1 ≡ some x = ap popped_of r.answer in
            let q = operate-Refined dest ds (back x) hd in
            let hd' : Represents (push_back dest x).0 (ds ++ x ∷ []) =
              at_back (push_back dest x).0 ds x (length ds == dest.size) room q.state in
            let n = min ((push_back dest x).0.size - length (ds ++ x ∷ [])) (length ss) in
            let e : min (dest.size - length ds) (suc (length ss)) ≡ suc n =
              ground (arith, q.same_size, length-append ds (x ∷ []), hd.length_le) in
            let m =
              fifo_move-Moved fuel (push_back dest x).0 (pop_front src).0 (ds ++ x ∷ []) ss hd'
                r.state (omega arith) in
            rw e (record {
              dest = m.dest;
              src = m.src;
              ends = rw (room', answer, fifo_move) m.ends;
              dest_is = subst (Represents m.dest) (append_assoc ds (x ∷ []) (take n ss)) m.dest_is;
              src_is = m.src_is;
            })
      ]
