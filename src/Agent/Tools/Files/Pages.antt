-- ===== src/Agent/Tools/Files/Pages.antt =====
-- src/agent/tools.rs: the lines that `read_file` answers with.
use Prim.Native.Nat.{◌^◌}
use zier_alpha.Prelude.{
  ℕ, zero, suc, ◌+◌, ◌-◌, ◌≤◌, ◌<◌, min, ◌≡◌, refl, sym, ap, ◌∙◌, Text, List, [], ◌∷◌, ◌++◌, some,
  arith, length, take, drop, length-take, length-drop, lt→ltb, le→ltb,
}
use zier_alpha.Agent.Tools.{ok, panic}
use zier_alpha.Agent.Tools.Files.{usize_add, numbered, select_lines, page}

module _ {ℓ} {A : Type ℓ} where
  take-nil : (n : ℕ) → take {A = A} n [] ≡ []
  take-nil zero = refl
  take-nil (suc n) = refl

  drop-nil : (n : ℕ) → drop {A = A} n [] ≡ []
  drop-nil zero = refl
  drop-nil (suc n) = refl

  take-min : (n : ℕ) (xs : List A) → take (min n (length xs)) xs ≡ take n xs
  take-min zero xs = let e : min 0 (length xs) ≡ 0 = omega arith in rw e
  take-min (suc n) [] = take-nil (min (suc n) 0)
  take-min (suc n) (x ∷ xs) =
      let e : min (suc n) (suc (length xs)) ≡ suc (min n (length xs)) = omega arith in
      rw e (ap (◌∷◌ x) (take-min n xs))

  drop-min : (n : ℕ) (xs : List A) → drop (min n (length xs)) xs ≡ drop n xs
  drop-min zero xs = let e : min 0 (length xs) ≡ 0 = omega arith in rw e
  drop-min (suc n) [] = drop-nil (min (suc n) 0)
  drop-min (suc n) (x ∷ xs) =
      let e : min (suc n) (suc (length xs)) ≡ suc (min n (length xs)) = omega arith in
      rw e (drop-min n xs)

  drop-drop : (n k : ℕ) (xs : List A) → drop k (drop n xs) ≡ drop (n + k) xs
  drop-drop zero k xs = let e : 0 + k ≡ k = omega arith in rw e
  drop-drop (suc n) k [] = drop-nil k ∙ sym (drop-nil (suc n + k))
  drop-drop (suc n) k (x ∷ xs) =
      let e : suc n + k ≡ suc (n + k) = omega arith in rw e (drop-drop n k xs)

  take-add : (n k : ℕ) (xs : List A) → take (n + k) xs ≡ take n xs ++ take k (drop n xs)
  take-add zero k xs = let e : 0 + k ≡ k = omega arith in rw e
  take-add (suc n) k [] = take-nil (suc n + k) ∙ sym (take-nil k)
  take-add (suc n) k (x ∷ xs) =
      let e : suc n + k ≡ suc (n + k) = omega arith in rw e (ap (◌∷◌ x) (take-add n k xs))

numbered-append :
    (n : ℕ) (xs ys : List Text)
    → numbered n (xs ++ ys) ≡ numbered n xs ++ numbered (n + length xs) ys
unfolding numbered
numbered-append n [] ys = let e : n + 0 ≡ n = omega arith in rw e
numbered-append n (x ∷ xs) ys =
    let e : n + suc (length xs) ≡ n + 1 + length xs = omega arith in
    rw (e, numbered-append (n + 1) xs ys)

select_lines_lem :
    (start end : ℕ) (all : List Text)
    → start ≤ end
    → select_lines start end all ≡ ok (numbered start (take (end - start) (drop start all)))
unfolding select_lines
select_lines_lem start end all h = rw (le→ltb end start h)

-- The slice of the lines from the offset on, when nothing overflows.
page_lem :
    (offset l : ℕ) (all : List Text)
    → offset + l < 2 ^ 64
    → page offset (some l) all ≡ ok (numbered (min offset (length all)) (take l (drop offset all)))
unfolding page
page_lem offset l all small =
    let start = min offset (length all) in
    let end = min (usize_add start l) (length all) in
    let ordered : start ≤ end = omega arith in
    let kept = drop start all in
    let size : end - start ≡ min l (length kept) = omega (arith, length-drop start all) in
    let same : take (end - start) kept ≡ take l (drop offset all) =
      ap (λ n. take n kept) size ∙ take-min l kept ∙ ap (take l) (drop-min offset all) in
    select_lines_lem start end all ordered ∙ ap (λ t. ok (numbered start t)) same

-- Reading some lines and then the lines behind them gives what reading all of them at once gives,
-- numbers included, for offsets and limits whose sum is a `usize`.
pub page-append :
    (offset a b : ℕ) (all : List Text)
    → offset + a + b < 2 ^ 64
    → (xs ys : List Text) × (page offset (some a) all ≡ ok xs)
      × (page (offset + a) (some b) all ≡ ok ys)
      × (page offset (some (a + b)) all ≡ ok (xs ++ ys))
page-append offset a b all small =
    let start = min offset (length all) in
    let rest = drop offset all in
    let both : (n : ℕ)
        → numbered n (take (a + b) rest)
          ≡ numbered n (take a rest) ++ numbered (n + length (take a rest)) (take b (drop a rest)) =
      λ n.
        ap (numbered n) (take-add a b rest)
        ∙ numbered-append n (take a rest) (take b (drop a rest)) in
    let next : min (offset + a) (length all) ≡ start + length (take a rest) =
      omega (arith, length-take a rest, length-drop offset all) in
    (
      numbered start (take a rest),
      numbered (min (offset + a) (length all)) (take b (drop (offset + a) all)),
      page_lem offset a all (omega arith),
      page_lem (offset + a) b all small,
      page_lem offset (a + b) all (omega arith)
          ∙ ap ok (rw (next, ← drop-drop offset a all) (both start)),
    )

-- A limit with which the end of the slice is no `usize` any more makes the call panic, unless it
-- starts at the first line.
pub page-overflow :
    (offset l : ℕ) (all : List Text)
    → l < 2 ^ 64
    → length all < 2 ^ 64
    → 2 ^ 64 ≤ min offset (length all) + l
    → page offset (some l) all ≡ panic
unfolding page select_lines
page-overflow offset l all limit short over =
    let start = min offset (length all) in
    let wrapped : min (usize_add start l) (length all) < start = omega arith in
    rw (lt→ltb _ _ wrapped)
