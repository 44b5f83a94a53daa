-- ===== src/Correlation/Store/Filed.antt =====
-- backend/app/db/repositories.py: the evidence that `_insert_incident_evidence` leaves.
use mathlib.Core.List.{append_assoc, append-nil}
use infra_red.Prelude.{
  ◌≡◌, refl, sym, ap, ◌∙◌, subst, inl, inr, String, Bool, true, false, Option, none, some, List, [],
  ◌∷◌, ◌++◌, str_eq_refl, Bool-cases, arith, if◌then◌else◌,
}
use infra_red.Prelude.All.{All, All-append, any}
use infra_red.Prelude.Format.{truthy, text_or}
use infra_red.Correlation.Builder.{EvidenceItem}
use infra_red.Correlation.Tables.{
  Exhibit, same_signal, same_description, is_stored, exhibit, insert_items,
}

any_more : (p : Exhibit → Bool) (xs ys : List Exhibit) → any p xs ≡ true → any p (xs ++ ys) ≡ true
any_more p [] ys h = cc h
any_more p (x ∷ xs) ys h = ground (arith, h, any_more p xs ys)

any_last :
    (p : Exhibit → Bool) (xs : List Exhibit) (x : Exhibit)
    → p x ≡ true
    → any p (xs ++ x ∷ []) ≡ true
any_last p [] x h = ground (arith, h)
any_last p (y ∷ ys) x h = ground (arith, h, any_last p ys x)

stored_more :
    (id : String) (item : EvidenceItem) (xs ys : List Exhibit)
    → is_stored id item xs ≡ true
    → is_stored id item (xs ++ ys) ≡ true
stored_more id item xs ys h = elim (Bool-cases (truthy item.signal_id)) [
  | inl y ↦
      rw y (any_more (same_signal id (text_or item.signal_id "")) xs ys (ground (arith, y, h)))
  | inr n ↦ rw n (any_more (same_description id item.description) xs ys (ground (arith, n, h)))
]

same_signal_self :
    (id : String) (o : Option String) (x : Exhibit)
    → x.incident_id ≡ id
    → x.signal_id ≡ o
    → truthy o ≡ true
    → same_signal id (text_or o "") x ≡ true
same_signal_self id none x e f h = cc h
same_signal_self id (some s) x e f h = ground (arith, e, f, h, str_eq_refl id, str_eq_refl s)

stored_last :
    (tenant id : String) (item : EvidenceItem) (xs : List Exhibit)
    → is_stored id item (xs ++ exhibit tenant id item ∷ []) ≡ true
stored_last tenant id item xs = elim (Bool-cases (truthy item.signal_id)) [
  | inl y ↦ rw y (
      any_last (same_signal id (text_or item.signal_id "")) xs (exhibit tenant id item)
        (same_signal_self id item.signal_id (exhibit tenant id item) refl refl y))
  | inr n ↦ rw n (
      any_last (same_description id item.description) xs (exhibit tenant id item)
        (ground (arith, str_eq_refl id, str_eq_refl item.description)))
]

-- Some evidence of this incident came behind the other, and each item is there.
abbrev pub Filed : String → List EvidenceItem → List Exhibit → List Exhibit → Type 0
Filed id items before after =
    (more : List Exhibit) × (after ≡ before ++ more)
    × All (λ (x : Exhibit). x.incident_id ≡ id) more
    × All (λ (item : EvidenceItem). is_stored id item after ≡ true) items

item_Filed :
    (tenant id : String) (item : EvidenceItem) (b : Bool) (xs : List Exhibit)
    → is_stored id item xs ≡ b
    → Filed id (item ∷ []) xs (if b then xs else xs ++ exhibit tenant id item ∷ [])
item_Filed tenant id item true xs e = ([], sym (append-nil xs), tt, (e, tt))
item_Filed tenant id item false xs e =
    (exhibit tenant id item ∷ [], refl, (refl, tt), (stored_last tenant id item xs, tt))

pub items_Filed :
    (tenant id : String) (items : List EvidenceItem) (xs : List Exhibit)
    → Filed id items xs (insert_items tenant id items xs)
unfolding insert_items
items_Filed tenant id [] xs = ([], sym (append-nil xs), tt, tt)
items_Filed tenant id (item ∷ rest) xs =
    let ys = if is_stored id item xs then xs else xs ++ exhibit tenant id item ∷ [] in
    let (more, e, own, there) = item_Filed tenant id item (is_stored id item xs) xs refl in
    let (more', e', own', there') = items_Filed tenant id rest ys in
    (
      more ++ more',
      e' ∙ ap (λ (zs : List Exhibit). zs ++ more') e ∙ append_assoc xs more more',
      All-append (λ (x : Exhibit). x.incident_id ≡ id) more more' own own',
      (
        subst (λ (zs : List Exhibit). is_stored id item zs ≡ true) (sym e')
            (stored_more id item ys more' there.0),
        there',
      ),
    )
