-- ===== src/Journal/Counted.antt =====
-- Counting the holders of a buffer, and what holds of each of them: libbcache/journal.h.
use bcache_tools.Base.{List, [], arith, refl, sym, ℕ, ◌++◌, ◌+◌, ◌<◌, ◌==◌, ◌∷◌, ◌≡◌, ◌≤◌}
use bcache_tools.Journal.{Res, bit_of}

-- The holders of the buffer `i`.
unfoldable pub count : ℕ → List Res → ℕ
count i [] = 0
count i (h ∷ hs) = bit_of (h.idx == i) + count i hs

pub count-middle :
    (i : ℕ) (xs : List Res) (h : Res) (ys : List Res)
    → count i (xs ++ h ∷ ys) ≡ bit_of (h.idx == i) + count i (xs ++ ys)
unfolding count
count-middle i [] h ys = refl
count-middle i (x ∷ xs) h ys = omega (arith, count-middle i xs h ys)

unfoldable pub All : (Res → Type 0) → List Res → Type 0
All P [] = Unit
All P (h ∷ hs) = P h × All P hs

module _ (P Q : Res → Type 0) where
  pub All-map : (hs : List Res) → ((h : Res) → P h → Q h) → All P hs → All Q hs
  unfolding All
  All-map [] f a = tt
  All-map (h ∷ hs) f (p, a) = (f h p, All-map hs f a)

  -- Where no holder has the buffer `i`.
  pub All-none :
      (i : ℕ) (hs : List Res)
      → ((h : Res) → P h → ¬ (h.idx ≡ i) → Q h)
      → count i hs ≡ 0
      → All P hs
      → All Q hs
  unfolding All count
  All-none i [] f e a = tt
  All-none i (h ∷ hs) f e (p, a) = (f h p (λ same. ground arith), All-none i hs f (omega arith) a)

module _ (P : Res → Type 0) where
  pub All-middle :
      (xs : List Res) (h : Res) (ys : List Res) → All P (xs ++ h ∷ ys) → P h × All P (xs ++ ys)
  unfolding All
  All-middle [] h ys (p, a) = (p, a)
  All-middle (x ∷ xs) h ys (p, a) = let (q, b) = All-middle xs h ys a in (q, (p, b))

  pub All-insert :
      (xs : List Res) (h : Res) (ys : List Res) → P h → All P (xs ++ ys) → All P (xs ++ h ∷ ys)
  unfolding All
  All-insert [] h ys q a = (q, a)
  All-insert (x ∷ xs) h ys q (p, a) = (p, All-insert xs h ys q a)

-- Two reservations in one buffer have no word in common.
unfoldable pub Apart : Res → Res → Type 0
Apart g h =
    (x : ℕ)
    → g.idx ≡ h.idx
    → (g.offset ≤ x) × (x < g.offset + g.u64s)
    → (h.offset ≤ x) × (x < h.offset + h.u64s)
    → ⊥

unfoldable pub AllApart : List Res → Type 0
AllApart [] = Unit
AllApart (h ∷ hs) = All (Apart h) hs × AllApart hs

Apart-sym : (g h : Res) → Apart g h → Apart h g
unfolding Apart
Apart-sym g h a x e p q = a x (sym e) q p

pub AllApart-middle :
    (xs : List Res) (h : Res) (ys : List Res)
    → AllApart (xs ++ h ∷ ys)
    → All (Apart h) (xs ++ ys) × AllApart (xs ++ ys)
unfolding AllApart All
AllApart-middle [] h ys (p, a) = (p, a)
AllApart-middle (x ∷ xs) h ys (p, a) =
    let (q, b) = AllApart-middle xs h ys a in
    let (c, d) = All-middle (Apart x) xs h ys p in ((Apart-sym x h c, q), (d, b))

pub AllApart-insert :
    (xs : List Res) (h : Res) (ys : List Res)
    → All (Apart h) (xs ++ ys)
    → AllApart (xs ++ ys)
    → AllApart (xs ++ h ∷ ys)
unfolding AllApart All
AllApart-insert [] h ys p a = (p, a)
AllApart-insert (x ∷ xs) h ys (px, p) (a, b) =
    (All-insert (Apart x) xs h ys (Apart-sym h x px) a, AllApart-insert xs h ys p b)
