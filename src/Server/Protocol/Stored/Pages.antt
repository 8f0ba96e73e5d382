-- ===== src/Server/Protocol/Stored/Pages.antt =====
-- The pages of a stored result.
use tradar.Base.{
  ℕ, zero, suc, ◌+◌, ◌-◌, ◌≤◌, List, [], ◌∷◌, ◌++◌, map, map-append, none, some, ◌≡◌, ◌⊎◌, refl,
  sym, ap, ◌∙◌, inl, inr, arith, length, length-drop, take, drop, min,
}
use tradar.Base.Json.{Value, as_object, as_array, to_array, items_of-values}
use tradar.Server.Protocol.Stored.{
  StoredResult, table, documents, total, usize_max, window, row_json, page, field_names,
  field_order,
}

take-most :
    {A : Type 0} (n m : ℕ) (xs : List A) → length xs ≤ n → length xs ≤ m → take n xs ≡ take m xs
take-most zero zero [] h k = refl
take-most zero (suc m) [] h k = refl
take-most (suc n) zero [] h k = refl
take-most (suc n) (suc m) [] h k = refl
take-most zero m (x ∷ xs) h k = absurd (omega arith)
take-most (suc n) zero (x ∷ xs) h k = absurd (omega arith)
take-most (suc n) (suc m) (x ∷ xs) h k = ap (◌∷◌ x) (take-most n m xs (omega arith) (omega arith))

drop-most :
    {A : Type 0} (n m : ℕ) (xs : List A) → length xs ≤ n → length xs ≤ m → drop n xs ≡ drop m xs
drop-most zero zero [] h k = refl
drop-most zero (suc m) [] h k = refl
drop-most (suc n) zero [] h k = refl
drop-most (suc n) (suc m) [] h k = refl
drop-most zero m (x ∷ xs) h k = absurd (omega arith)
drop-most (suc n) zero (x ∷ xs) h k = absurd (omega arith)
drop-most (suc n) (suc m) (x ∷ xs) h k = drop-most n m xs (omega arith) (omega arith)

same-window :
    {A : Type 0} (start count offset limit : ℕ) (xs : List A)
    → (start ≡ offset) ⊎ (length xs ≤ start) × (length xs ≤ offset)
    → (count ≡ limit) ⊎ (length xs ≤ start + count) × (length xs ≤ start + limit)
    → take count (drop start xs) ≡ take limit (drop offset xs)
same-window start count offset limit xs s c =
    let dropped : drop start xs ≡ drop offset xs = elim s [
      | inl e ↦ ap (λ n. drop n xs) e
      | inr (h, k) ↦ drop-most start offset xs h k
    ] in
    let taken : take count (drop start xs) ≡ take limit (drop start xs) = elim c [
      | inl e ↦ ap (λ n. take n (drop start xs)) e
      | inr (h, k) ↦
          take-most count limit (drop start xs) (omega (arith, length-drop start xs))
            (omega (arith, length-drop start xs))
    ] in
    taken ∙ ap (take limit) dropped

window-take :
    {A : Type 0} (offset limit : ℕ) (xs : List A)
    → length xs ≤ usize_max
    → window offset limit xs ≡ take limit (drop offset xs)
unfolding window
window-take offset limit xs h = same-window _ _ offset limit xs (omega arith) (omega arith)

take-nil : {A : Type 0} (n : ℕ) → take {A = A} n [] ≡ []
take-nil zero = refl
take-nil (suc n) = refl

drop-nil : {A : Type 0} (n : ℕ) → drop {A = A} n [] ≡ []
drop-nil zero = refl
drop-nil (suc n) = refl

take-add :
    {A : Type 0} (n more : ℕ) (xs : List A)
    → take n xs ++ take more (drop n xs) ≡ take (n + more) xs
take-add zero more xs = let z : more ≡ 0 + more = omega arith in ap (λ k. take k xs) z
take-add (suc n) more [] = take-nil more ∙ sym (take-nil (suc n + more))
take-add (suc n) more (x ∷ xs) =
    let e : suc (n + more) ≡ suc n + more = omega arith in
    ap (◌∷◌ x) (take-add n more xs) ∙ ap (λ k. take k (x ∷ xs)) e

drop-drop : {A : Type 0} (n m : ℕ) (xs : List A) → drop m (drop n xs) ≡ drop (n + m) xs
drop-drop zero m xs = let z : m ≡ 0 + m = omega arith in ap (λ k. drop k xs) z
drop-drop (suc n) m [] = drop-nil m ∙ sym (drop-nil (suc n + m))
drop-drop (suc n) m (x ∷ xs) =
    let e : suc (n + m) ≡ suc n + m = omega arith in drop-drop n m xs ∙ ap (λ k. drop k (x ∷ xs)) e

take-drop-add :
    {A : Type 0} (offset limit more : ℕ) (xs : List A)
    → take limit (drop offset xs) ++ take more (drop (offset + limit) xs)
      ≡ take (limit + more) (drop offset xs)
take-drop-add offset limit more xs =
    ap (λ t. take limit (drop offset xs) ++ take more t) (sym (drop-drop offset limit xs))
    ∙ take-add limit more (drop offset xs)

-- The rows or documents of a page.
abbrev pub rows_of : ℕ → ℕ → StoredResult → List Value
rows_of offset limit (table columns rows truncated) = map row_json (take limit (drop offset rows))
rows_of offset limit (documents items truncated) = take limit (drop offset items)

length-take : {A : Type 0} (n : ℕ) (xs : List A) → length (take n xs) ≡ min n (length xs)
length-take zero xs = omega arith
length-take (suc n) [] = omega arith
length-take (suc n) (x ∷ xs) = omega (arith, length-take n xs)

length-map : {A B : Type 0} (f : A → B) (xs : List A) → length (map f xs) ≡ length xs
length-map f [] = refl
length-map f (x ∷ xs) = ap suc (length-map f xs)

page-rows_of :
    (offset limit : ℕ) (s : StoredResult)
    → total s ≤ usize_max
    → page offset limit s ≡ to_array (rows_of offset limit s)
unfolding page total
page-rows_of offset limit (table columns rows truncated) h =
    ap (λ w. to_array (map row_json w)) (window-take offset limit rows h)
page-rows_of offset limit (documents items truncated) h =
    ap to_array (window-take offset limit items h)

length-rows_of :
    (offset limit : ℕ) (s : StoredResult)
    → length (rows_of offset limit s) ≡ min limit (total s - offset)
unfolding total
length-rows_of offset limit (table columns rows truncated) =
    length-map row_json _
    ∙ length-take limit (drop offset rows)
    ∙ ap (min limit) (length-drop offset rows)
length-rows_of offset limit (documents items truncated) =
    length-take limit (drop offset items) ∙ ap (min limit) (length-drop offset items)

rows_of-append :
    (offset limit more : ℕ) (s : StoredResult)
    → rows_of offset limit s ++ rows_of (offset + limit) more s ≡ rows_of offset (limit + more) s
rows_of-append offset limit more (table columns rows truncated) =
    sym (map-append row_json (take limit (drop offset rows)) _)
    ∙ ap (map row_json) (take-drop-add offset limit more rows)
rows_of-append offset limit more (documents items truncated) = take-drop-add offset limit more items

field_order-rows_of :
    (offset limit : ℕ) (s : StoredResult)
    → total s ≤ usize_max
    → (field_order offset limit s ≡ none)
      ⊎ (field_order offset limit s
          ≡ some (to_array (map (λ v. field_names (as_object v)) (rows_of offset limit s))))
unfolding field_order total
field_order-rows_of offset limit (table columns rows truncated) h = inl refl
field_order-rows_of offset limit (documents items truncated) h = inr (
    ap (λ w. some (to_array (map (λ v. field_names (as_object v)) w)))
      (window-take offset limit items h))

-- Two pages of a result, one behind the other, are one page; a page has as many rows or
-- documents as were asked for, or as are left.
pub page-append :
    (offset limit more : ℕ) (s : StoredResult)
    → total s ≤ usize_max
    → (first : List Value) × (second : List Value) × (as_array (page offset limit s) ≡ some first)
      × (as_array (page (offset + limit) more s) ≡ some second)
      × (as_array (page offset (limit + more) s) ≡ some (first ++ second))
      × (length first ≡ min limit (total s - offset))
page-append offset limit more s h =
    let read : (o l : ℕ) → as_array (page o l s) ≡ some (rows_of o l s) =
      λ o l. ap as_array (page-rows_of o l s h) ∙ ap some (items_of-values (rows_of o l s)) in
    (
      rows_of offset limit s,
      rows_of (offset + limit) more s,
      read offset limit,
      read (offset + limit) more,
      read offset (limit + more) ∙ ap some (sym (rows_of-append offset limit more s)),
      length-rows_of offset limit s,
    )
