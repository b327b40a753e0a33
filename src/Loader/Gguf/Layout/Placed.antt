-- ===== src/Loader/Gguf/Layout/Placed.antt =====
-- The places of the tensors in the data section.
use ocelotl.Common.{
  ℕ, ◌+◌, suc, ◌≤◌, ◌≡◌, refl, sym, ap, subst, Option, some, List, [], ◌∷◌, String, arith, All,
  length,
}
use ocelotl.Core.Errors.{ok, >>=-eq-ok}
use ocelotl.Core.Words.{checked_add}
use ocelotl.Loader.Gguf.Types.{GgufTensorEntry}
use ocelotl.Loader.Gguf.Layout.{check_end, place_tensor, place_tensors}

check_end_ok :
    (path : Option String) (file_len file_offset n : ℕ)
    → check_end path file_len file_offset (some n) ≡ ok tt
    → file_offset + n ≤ file_len
unfolding check_end checked_add
check_end_ok path file_len file_offset n h = ground arith

place_tensor_ok :
    (path : Option String) (file_len start : ℕ) (t placed : GgufTensorEntry)
    → place_tensor path file_len start t ≡ ok placed
    → (placed ≡ record t { file_offset = start + t.offset })
      × (start + t.offset ≤ file_len)
      × (check_end path file_len (start + t.offset) t.byte_len ≡ ok tt)
unfolding place_tensor checked_add
place_tensor_ok path file_len start t placed h = (ground arith, ground arith, ground arith)

-- A tensor with its place in a file whose data starts at `start`.
pub record IsPlacedIn (file_len start : ℕ) (t : GgufTensorEntry) : Type 0 where
  pub place : t.file_offset ≡ start + t.offset
  pub starts_inside : t.file_offset ≤ file_len
  pub ends_inside : (n : ℕ) → t.byte_len ≡ some n → t.file_offset + n ≤ file_len

place_tensor-IsPlacedIn :
    (path : Option String) (file_len start : ℕ) (t placed : GgufTensorEntry)
    → place_tensor path file_len start t ≡ ok placed
    → IsPlacedIn file_len start placed
place_tensor-IsPlacedIn path file_len start t placed h =
    let (e, inside, ends) = place_tensor_ok path file_len start t placed h in
    subst (IsPlacedIn file_len start) (sym e) (record {
      place = refl;
      starts_inside = inside;
      ends_inside = λ n b. check_end_ok path file_len (start + t.offset) n (rw b at ends);
    })

-- A property of tensors that the place has no part in.
pub place_tensors_ok :
    (P : GgufTensorEntry → Type 0) (path : Option String) (file_len start : ℕ)
    (ts placed : List GgufTensorEntry)
    → ((t : GgufTensorEntry) (n : ℕ) → P t → P (record t { file_offset = n }))
    → All P ts
    → place_tensors path file_len start ts ≡ ok placed
    → (length placed ≡ length ts) × All (λ t. P t × IsPlacedIn file_len start t) placed
unfolding place_tensors
place_tensors_ok P path file_len start [] placed keep ps h =
    let e : [] ≡ placed = cc in
    subst (λ xs. (length xs ≡ 0) × All (λ t. P t × IsPlacedIn file_len start t) xs) e (refl, tt)
place_tensors_ok P path file_len start (t ∷ ts) placed keep ps h =
    let (p, one, rest) = >>=-eq-ok (place_tensor path file_len start t) _ h in
    let (others, more, last) = >>=-eq-ok (place_tensors path file_len start ts) _ rest in
    let (same, all_others) = place_tensors_ok P path file_len start ts others keep (ps.1) more in
    let e : p ∷ others ≡ placed = cc in
    let (shape, _, _) = place_tensor_ok path file_len start t p one in
    let kept : P p = subst P (sym shape) (keep t (start + t.offset) (ps.0)) in
    subst (λ xs. (length xs ≡ suc (length ts)) × All (λ t. P t × IsPlacedIn file_len start t) xs) e
      (ap suc same, ((kept, place_tensor-IsPlacedIn path file_len start t p one), all_others))
