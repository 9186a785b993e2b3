-- ===== src/Server/Snapshot/Sorted.antt =====
-- The names of a listing are those of the map, in order.
use ptymux.Server.Snapshot.{bytes_ltb, insert_sorted, sort_strings}
use ptymux.Prelude.{
  ℕ, ◌+◌, ◌≡◌, refl, ap, ◌∙◌, true, false, List, [], ◌∷◌, arith, if◌then◌else◌, Bytes, bytes_eq,
  if-intro,
}

-- No name stands before one that is smaller.
abbrev Follows : Bytes → List Bytes → Type 0
Follows x [] = Unit {0}
Follows x (y ∷ ys) = bytes_ltb y x ≡ false

abbrev pub IsSorted : List Bytes → Type 0
IsSorted [] = Unit {0}
IsSorted (x ∷ xs) = Follows x xs × IsSorted xs

bytes_ltb-asym : (a b : Bytes) → bytes_ltb a b ≡ true → bytes_ltb b a ≡ false
unfolding bytes_ltb
bytes_ltb-asym [] [] h = refl
bytes_ltb-asym [] (y ∷ ys) h = refl
bytes_ltb-asym (x ∷ xs) [] h = cc
bytes_ltb-asym (x ∷ xs) (y ∷ ys) h = ground (arith, bytes_ltb-asym xs ys)

insert_sorted-Follows :
    (k x : Bytes) (ys : List Bytes)
    → bytes_ltb k x ≡ false
    → Follows x ys
    → Follows x (insert_sorted k ys)
unfolding insert_sorted
insert_sorted-Follows k x [] h f = h
insert_sorted-Follows k x (y ∷ ys) h f = if-intro (Follows x) (bytes_ltb y k) (λ _. f) (λ _. h)

insert_sorted-IsSorted : (k : Bytes) (xs : List Bytes) → IsSorted xs → IsSorted (insert_sorted k xs)
unfolding insert_sorted
insert_sorted-IsSorted k [] h = (tt, tt)
insert_sorted-IsSorted k (x ∷ xs) h =
    if-intro IsSorted (bytes_ltb x k)
      (λ e.
        (insert_sorted-Follows k x xs (bytes_ltb-asym x k e) h.0, insert_sorted-IsSorted k xs h.1))
      (λ e. (e, h))

-- How often a name stands in a list.
pub occurrences : Bytes → List Bytes → ℕ
unfolding bytes_eq
occurrences q [] = 0
occurrences q (x ∷ xs) = (if bytes_eq x q then 1 else 0) + occurrences q xs

occurrences-insert_sorted :
    (q k : Bytes) (xs : List Bytes)
    → occurrences q (insert_sorted k xs) ≡ (if bytes_eq k q then 1 else 0) + occurrences q xs
unfolding occurrences insert_sorted
occurrences-insert_sorted q k [] = refl
occurrences-insert_sorted q k (x ∷ xs) =
    let ih = occurrences-insert_sorted q k xs in
    if-intro
      (λ l.
        occurrences q l
        ≡ (if bytes_eq k q then 1 else 0) + ((if bytes_eq x q then 1 else 0) + occurrences q xs))
      (bytes_ltb x k) (λ _. omega (arith, ih)) (λ _. refl)

-- The sorted list is in order, and each name stands in it as often as before.
pub sort_strings-IsSorted :
    (xs : List Bytes)
    → IsSorted (sort_strings xs)
      × ((q : Bytes) → occurrences q (sort_strings xs) ≡ occurrences q xs)
unfolding sort_strings occurrences
sort_strings-IsSorted [] = (tt, λ q. refl)
sort_strings-IsSorted (x ∷ xs) =
    let (sorted, same) = sort_strings-IsSorted xs in
    (
      insert_sorted-IsSorted x (sort_strings xs) sorted,
      λ q.
          occurrences-insert_sorted q x (sort_strings xs)
          ∙ ap (λ n. (if bytes_eq x q then 1 else 0) + n) (same q),
    )
