-- ===== src/Fifo/Slots.antt =====
-- The slots of the ring buffer of libbcache/fifo.h when an element is pushed or popped.
use mathlib.Core.Path.{subst}
use native.Mathlib.Nat.{mod-lt}
use bcache_tools.Base.{
  List, [], ap, arith, bit_and, dec_lt, get_elem?, get_elem?-set_ne, get_elem?-set_self, length,
  length-append, length-set, pow-pos, set, some, suc, sym, u64, zero, ℕ, ◌%◌, ◌++◌, ◌+◌, ◌-◌, ◌<◌,
  ◌^◌, ◌∙◌, ◌∷◌, ◌≡◌,
}
use bcache_tools.Base.Bits.{bit_and-low_mask}
use bcache_tools.Base.Div.{pow_mono}
use bcache_tools.Fifo.{Fifo, fifo_used}
use bcache_tools.Fifo.Ring.{
  get_elem?-append_last, get_elem?-append_left, mod-apart, mod-round, mod-u64,
}
use bcache_tools.Fifo.Queue.{Represents}

module _ {A : Type 0} (f : Fifo A) (xs : List A) (h : Represents f xs) where
  pub size_lt : f.size < 2 ^ 64
  size_lt = let p = pow_mono h.power 63 h.power_le in omega (arith, h.size_le)

  -- `fifo_used` is the length.
  pub fifo_used-length : fifo_used f ≡ length xs
  fifo_used-length = omega (arith, h.back, h.front_lt, h.length_le, size_lt)

  -- An index is masked to its place in the ring.
  pub place : (x : ℕ) → bit_and (u64 x) f.mask ≡ x % 2 ^ h.power
  place x =
      ap (bit_and (u64 x)) h.mask
      ∙ bit_and-low_mask h.power (u64 x)
      ∙ ap (λ t. t % 2 ^ h.power) (omega arith)
      ∙ mod-u64 x 0 h.power (omega (arith, h.power_le))
      ∙ ap (λ t. t % 2 ^ h.power) (omega arith)

  pub push_back-Represents :
      (i : A)
      → length xs < f.size
      → Represents
          (record {
            front = f.front;
            back = u64 (f.back + 1);
            size = f.size;
            mask = f.mask;
            slots = set f.slots (bit_and f.back f.mask) i;
          })
          (xs ++ i ∷ [])
  push_back-Represents i room =
      let c = 2 ^ h.power in
      let at : bit_and f.back f.mask ≡ (f.front + length xs) % c =
        ap (λ t. bit_and t f.mask) h.back ∙ place (f.front + length xs) in
      let within : (f.front + length xs) % c < length f.slots =
        subst (λ t. (f.front + length xs) % c < t) (sym h.memory)
          (mod-lt (f.front + length xs) (pow-pos h.power)) in
      record {
        power = h.power;
        power_le = h.power_le;
        mask = h.mask;
        memory = length-set f.slots (bit_and f.back f.mask) i ∙ h.memory;
        size_le = h.size_le;
        front_lt = h.front_lt;
        length_le = omega (arith, length-append xs (i ∷ []));
        back = omega (arith, h.back, length-append xs (i ∷ []));
        entries = λ j hj. rw at (elim (dec_lt j (length xs)) [
          | yes lt ↦
              get_elem?-set_ne f.slots i (later j lt)
              ∙ h.entries j lt
              ∙ sym (get_elem?-append_left xs (i ∷ []) j lt)
          | no ge ↦
              let last : j ≡ length xs = omega (arith, length-append xs (i ∷ [])) in
              rw last (
                get_elem?-set_self f.slots ((f.front + length xs) % c) i within
                ∙ sym (get_elem?-append_last xs i))
        ]);
      }
    where
      later :
          (j : ℕ)
          → j < length xs
          → ¬ ((f.front + length xs) % 2 ^ h.power ≡ (f.front + j) % 2 ^ h.power)
      later j lt e =
          mod-apart (f.front + j) (length xs - j) (2 ^ h.power) (omega arith)
            (omega (arith, h.length_le, h.size_le)) (ap (λ t. t % 2 ^ h.power) (omega arith) ∙ e)

  pub push_front-Represents :
      (i : A)
      → length xs < f.size
      → Represents
          (record {
            front = u64 (f.front + (2 ^ 64 - 1));
            back = f.back;
            size = f.size;
            mask = f.mask;
            slots = set f.slots (bit_and (u64 (f.front + (2 ^ 64 - 1))) f.mask) i;
          })
          (i ∷ xs)
  push_front-Represents i room =
      let c = 2 ^ h.power in
      let before = f.front + (2 ^ 64 - 1) in
      let at : bit_and (u64 before) f.mask ≡ before % c = place before in
      let within : before % c < length f.slots =
        subst (λ t. before % c < t) (sym h.memory) (mod-lt before (pow-pos h.power)) in
      record {
        power = h.power;
        power_le = h.power_le;
        mask = h.mask;
        memory = length-set f.slots (bit_and (u64 before) f.mask) i ∙ h.memory;
        size_le = h.size_le;
        front_lt = omega arith;
        length_le = omega arith;
        back = omega (arith, h.back);
        entries = λ j hj.
            rw (at, mod-u64 before j h.power (omega (arith, h.power_le))) (front_entry j hj);
      }
    where
      front_entry :
          (j : ℕ)
          → j < suc (length xs)
          → get_elem?
              (set f.slots ((f.front + (2 ^ 64 - 1)) % 2 ^ h.power) i)
              ((f.front + (2 ^ 64 - 1) + j) % 2 ^ h.power)
            ≡ get_elem? (i ∷ xs) j
      front_entry zero hj =
          let before = f.front + (2 ^ 64 - 1) in
          let c = 2 ^ h.power in
          ap (λ t. get_elem? (set f.slots (before % c) i) (t % c)) (omega arith)
          ∙ get_elem?-set_self f.slots (before % c) i
              (subst (λ t. before % c < t) (sym h.memory) (mod-lt before (pow-pos h.power)))
      front_entry (suc j) hj =
          let before = f.front + (2 ^ 64 - 1) in
          let c = 2 ^ h.power in
          get_elem?-set_ne f.slots i
            (λ e. mod-apart before (suc j) c (omega arith) (omega (arith, h.size_le, room)) (sym e))
          ∙ ap (get_elem? f.slots) (
              ap (λ t. t % c) (omega arith)
              ∙ mod-round (f.front + j) h.power (omega (arith, h.power_le)))
          ∙ h.entries j (omega arith)

-- The element at the front.
module _ {A : Type 0} (f : Fifo A) (x : A) (xs : List A) (h : Represents f (x ∷ xs)) where
  pub front_element : get_elem? f.slots (bit_and f.front f.mask) ≡ some x
  front_element =
      let e : f.front ≡ u64 f.front = omega (arith, h.front_lt) in
      ap (get_elem? f.slots) (
        ap (λ t. bit_and t f.mask) e
        ∙ place f (x ∷ xs) h f.front
        ∙ ap (λ t. t % 2 ^ h.power) (omega arith))
      ∙ h.entries 0 (omega arith)

  pub pop_front-Represents :
      Represents
        (record {
          front = u64 (f.front + 1);
          back = f.back;
          size = f.size;
          mask = f.mask;
          slots = f.slots;
        })
        xs
  pop_front-Represents = record {
    power = h.power;
    power_le = h.power_le;
    mask = h.mask;
    memory = h.memory;
    size_le = h.size_le;
    front_lt = omega arith;
    length_le = omega (arith, h.length_le);
    back = omega (arith, h.back);
    entries = λ j hj.
        ap (get_elem? f.slots) (
          mod-u64 (f.front + 1) j h.power (omega (arith, h.power_le))
          ∙ ap (λ t. t % 2 ^ h.power) (omega arith))
        ∙ h.entries (suc j) (omega arith);
  }
