-- ===== src/StrHash/Tests.antt =====
-- Runs of the code of libbcache/str_hash.h, and the theorems at these.
use bcache_tools.Base.{
  ap, arith, false, not, refl, some, sym, ℕ, ℕ_discrete, ◌%◌, ◌==◌, ◌∙◌, ◌≡◌, ◌≢◌,
}
use bcache_tools.Base.Family.{assign}
use bcache_tools.StrHash.{
  Flags, HashDesc, Slot, done, hash_delete, hash_set, hole, hole_at, key, lookup, lookup_at,
  lookup_bkey_at, needs_whiteout, whiteout, whiteout_scan,
}
use bcache_tools.StrHash.Lookup.{Names, lookup-hash_set}
use bcache_tools.StrHash.Chains.{Chained, Occupied, hash_delete-Chained}

-- Names are numbers, and those that are equal modulo 4 collide.
abbrev by_remainder : HashDesc ℕ ℕ
by_remainder = record {
  hash_key = λ s. s % 4;
  hash_bkey = λ k. k % 4;
  cmp_key = λ k s. not (k == s);
  cmp_bkey = λ a k. not (a == k);
}

abbrev any : Flags
any = record { must_create = false; must_replace = false }

abbrev no_names : ℕ → Slot ℕ
no_names = λ _. hole

-- 5 lies at the offset 1, and 9 after it at 2.
abbrev two_names : ℕ → Slot ℕ
two_names = assign (assign no_names 1 (key 5)) 2 (key 9)

second_collides : hash_set by_remainder 64 any 9 (assign no_names 1 (key 5)) ≡ (done, two_names)
unfolding hash_set lookup_bkey_at hole_at
second_collides = refl

nine-Names : Names by_remainder 9 9
unfolding Names
nine-Names = (refl, refl, λ a. refl)

lookup-hash_set_example : (q : ℕ) × (lookup by_remainder 64 9 two_names ≡ some (q, 9))
lookup-hash_set_example =
    lookup-hash_set by_remainder 64 any 9 9 (assign no_names 1 (key 5)) two_names nine-Names
      second_collides

same_key : (a b : ℕ) → key a ≡ key b → a ≡ b
same_key a b e = cc

not_hole : (k : ℕ) → key k ≢ hole
not_hole k e = cc

two_names-Chained : Chained by_remainder 64 two_names
unfolding Chained Occupied
two_names-Chained o k at = elim (ℕ_discrete o 2) [
  | yes second ↦
      let nine : 9 ≡ k = same_key 9 k (sym (ap two_names second) ∙ at) in
      (
        omega arith,
        omega arith,
        λ j ha hb p. let first : j ≡ 1 = omega arith in not_hole 5 (sym (ap two_names first) ∙ p),
      )
  | no ne₂ ↦ elim (ℕ_discrete o 1) [
    | yes first ↦
        let five : 5 ≡ k = same_key 5 k (sym (ap two_names first) ∙ at) in
        (omega arith, omega arith, λ j ha hb p. absurd (omega arith))
    | no ne₁ ↦
        let not_second : (o == 2) ≡ false = ground arith in
        let not_first : (o == 1) ≡ false = ground arith in
        absurd (not_hole k (sym (rw (not_second, not_first) at at)))
  ]
]

hash_delete-Chained_example :
    Chained by_remainder 64 (hash_delete by_remainder 64 false 5 two_names).1
hash_delete-Chained_example =
    hash_delete-Chained by_remainder 64 false 5 two_names two_names-Chained

-- The deleted name leaves a whiteout, since the other's chain passes it.
whiteout_left : (hash_delete by_remainder 64 false 5 two_names).1 1 ≡ whiteout
unfolding hash_delete lookup lookup_at needs_whiteout whiteout_scan
whiteout_left = refl
