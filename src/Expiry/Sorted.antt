-- ===== src/Expiry/Sorted.antt =====
-- src/session_expiry.c: the list of items is in order, and the items are those of their contexts.
use dimq.Prelude.{
  subst, ap, ==_iff, ◌∙◌, ◌==◌, sym, List, [], ◌∷◌, ℕ, ◌≡◌, ◌≢◌, ◌≤◌, refl, arith, true, false, leb,
  inl, inr, Bool-cases, none, some,
}
use dimq.Expiry.{SessionContext, Item, insert_item, delete_item, time_of, is_item, set_context}

-- Every session of the list ends at this time or later.
abbrev pub EndFrom : (ℕ → SessionContext) → ℕ → List Item → Type 0
EndFrom cs t [] = Unit {0}
EndFrom cs t (x ∷ xs) = (t ≤ time_of cs x) × EndFrom cs t xs

abbrev pub AreSorted : (ℕ → SessionContext) → List Item → Type 0
AreSorted cs [] = Unit {0}
AreSorted cs (x ∷ xs) = EndFrom cs (time_of cs x) xs × AreSorted cs xs

-- Every item is the one that its context points to.
abbrev pub AreOwned : (ℕ → SessionContext) → List Item → Type 0
AreOwned cs [] = Unit {0}
AreOwned cs (x ∷ xs) = ((cs x.context).expiry_list_item ≡ some x.number) × AreOwned cs xs

-- No item is of this context; no two items are of one context.
abbrev pub IsUnlisted : ℕ → List Item → Type 0
IsUnlisted c [] = Unit {0}
IsUnlisted c (x ∷ xs) = (x.context ≢ c) × IsUnlisted c xs

abbrev pub AreApart : List Item → Type 0
AreApart [] = Unit {0}
AreApart (x ∷ xs) = IsUnlisted x.context xs × AreApart xs

pub record IsTidy (cs : ℕ → SessionContext) (xs : List Item) : Type 0 where
  pub sorted : AreSorted cs xs
  pub owned : AreOwned cs xs
  pub apart : AreApart xs

pub earlier-EndFrom :
    (cs : ℕ → SessionContext) (t u : ℕ) (xs : List Item) → t ≤ u → EndFrom cs u xs → EndFrom cs t xs
earlier-EndFrom cs t u [] le e = tt
earlier-EndFrom cs t u (x ∷ xs) le (e, es) = (omega (arith, le, e), earlier-EndFrom cs t u xs le es)

insert_item-EndFrom :
    (cs : ℕ → SessionContext) (t : ℕ) (i : Item) (xs : List Item)
    → t ≤ time_of cs i
    → EndFrom cs t xs
    → EndFrom cs t (insert_item cs i xs)
unfolding insert_item
insert_item-EndFrom cs t i [] le e = (le, tt)
insert_item-EndFrom cs t i (x ∷ xs) le (e, es) =
    elim (Bool-cases (leb (time_of cs i) (time_of cs x))) [
      | inl b ↦ rw b (le, (e, es))
      | inr b ↦ rw b (e, insert_item-EndFrom cs t i xs le es)
    ]

insert_item-IsUnlisted :
    (cs : ℕ → SessionContext) (c : ℕ) (i : Item) (xs : List Item)
    → i.context ≢ c
    → IsUnlisted c xs
    → IsUnlisted c (insert_item cs i xs)
unfolding insert_item
insert_item-IsUnlisted cs c i [] n u = (n, tt)
insert_item-IsUnlisted cs c i (x ∷ xs) n (e, es) =
    elim (Bool-cases (leb (time_of cs i) (time_of cs x))) [
      | inl b ↦ rw b (n, (e, es))
      | inr b ↦ rw b (e, insert_item-IsUnlisted cs c i xs n es)
    ]

pub insert_item-IsTidy :
    (cs : ℕ → SessionContext) (i : Item) (xs : List Item)
    → (cs i.context).expiry_list_item ≡ some i.number
    → IsUnlisted i.context xs
    → IsTidy cs xs
    → IsTidy cs (insert_item cs i xs)
unfolding insert_item
insert_item-IsTidy cs i [] own u tidy = record {
  sorted = (tt, tt);
  owned = (own, tt);
  apart = (tt, tt);
}
insert_item-IsTidy cs i (x ∷ xs) own (n, u) tidy =
    elim (Bool-cases (leb (time_of cs i) (time_of cs x))) [
      | inl b ↦
          let le : time_of cs i ≤ time_of cs x = ground (arith, b) in
          rw b (record {
            sorted = (
              (le, earlier-EndFrom cs (time_of cs i) (time_of cs x) xs le tidy.sorted.0),
              tidy.sorted,
            );
            owned = (own, tidy.owned);
            apart = ((n, u), tidy.apart);
          })
      | inr b ↦
          let rest =
            insert_item-IsTidy cs i xs own u
              (record { sorted = tidy.sorted.1; owned = tidy.owned.1; apart = tidy.apart.1 }) in
          rw b (record {
            sorted = (
              insert_item-EndFrom cs (time_of cs x) i xs (ground (arith, b)) tidy.sorted.0,
              rest.sorted,
            );
            owned = (tidy.owned.0, rest.owned);
            apart = (
              insert_item-IsUnlisted cs x.context i xs (λ e. n (sym e)) tidy.apart.0,
              rest.apart,
            );
          })
    ]

delete_item-EndFrom :
    (cs : ℕ → SessionContext) (t c number : ℕ) (xs : List Item)
    → EndFrom cs t xs
    → EndFrom cs t (delete_item c number xs)
unfolding delete_item
delete_item-EndFrom cs t c number [] e = tt
delete_item-EndFrom cs t c number (x ∷ xs) (e, es) = elim (Bool-cases (is_item c number x)) [
  | inl b ↦ rw b es
  | inr b ↦ rw b (e, delete_item-EndFrom cs t c number xs es)
]

delete_item-IsUnlisted :
    (d c number : ℕ) (xs : List Item) → IsUnlisted d xs → IsUnlisted d (delete_item c number xs)
unfolding delete_item
delete_item-IsUnlisted d c number [] u = tt
delete_item-IsUnlisted d c number (x ∷ xs) (u, us) = elim (Bool-cases (is_item c number x)) [
  | inl b ↦ rw b us
  | inr b ↦ rw b (u, delete_item-IsUnlisted d c number xs us)
]

-- Without the item of a context, no item of it is left.
pub delete_item-IsTidy :
    (cs : ℕ → SessionContext) (c number : ℕ) (xs : List Item)
    → (cs c).expiry_list_item ≡ some number
    → IsTidy cs xs
    → IsTidy cs (delete_item c number xs) × IsUnlisted c (delete_item c number xs)
unfolding delete_item
delete_item-IsTidy cs c number [] own tidy = (tidy, tt)
delete_item-IsTidy cs c number (x ∷ xs) own tidy =
    let rest : IsTidy cs xs = record {
      sorted = tidy.sorted.1;
      owned = tidy.owned.1;
      apart = tidy.apart.1;
    } in
    let (more, gone) = delete_item-IsTidy cs c number xs own rest in
    elim (Bool-cases (x.context == c)) [
      | inl b ↦
          let same : x.context ≡ c = (==_iff x.context c).0 b in
          let numbers : some x.number ≡ some number =
            sym tidy.owned.0 ∙ ap (λ y. (cs y).expiry_list_item) same ∙ own in
          let number_is : x.number ≡ number = cc in
          let it : is_item c number x ≡ true = rw b (ground (arith, number_is)) in
          rw it (rest, subst (λ y. IsUnlisted y xs) same tidy.apart.0)
      | inr b ↦
          let it : is_item c number x ≡ false = rw b refl in
          rw it (
            record {
              sorted =
                  (delete_item-EndFrom cs (time_of cs x) c number xs tidy.sorted.0, more.sorted);
              owned = (tidy.owned.0, more.owned);
              apart = (delete_item-IsUnlisted x.context c number xs tidy.apart.0, more.apart);
            },
            ((λ e. ground (arith, b, e)), gone),
          )
    ]

-- The contexts of these items have the same time and point to the same item.
abbrev pub AreSame : (ℕ → SessionContext) → (ℕ → SessionContext) → List Item → Type 0
AreSame cs cs' [] = Unit {0}
AreSame cs cs' (x ∷ xs) =
    (time_of cs' x ≡ time_of cs x)
    × ((cs' x.context).expiry_list_item ≡ (cs x.context).expiry_list_item)
    × AreSame cs cs' xs

same-EndFrom :
    (cs cs' : ℕ → SessionContext) (t : ℕ) (xs : List Item)
    → AreSame cs cs' xs
    → EndFrom cs t xs
    → EndFrom cs' t xs
same-EndFrom cs cs' t [] same e = tt
same-EndFrom cs cs' t (x ∷ xs) (time, own, same) (e, es) =
    (omega (arith, e, time), same-EndFrom cs cs' t xs same es)

pub same-IsTidy :
    (cs cs' : ℕ → SessionContext) (xs : List Item)
    → AreSame cs cs' xs
    → IsTidy cs xs
    → IsTidy cs' xs
same-IsTidy cs cs' [] same tidy = record { sorted = tt; owned = tt; apart = tt }
same-IsTidy cs cs' (x ∷ xs) (time, own, same) tidy =
    let rest =
      same-IsTidy cs cs' xs same
        (record { sorted = tidy.sorted.1; owned = tidy.owned.1; apart = tidy.apart.1 }) in
    record {
      sorted = (rw time (same-EndFrom cs cs' (time_of cs x) xs same tidy.sorted.0), rest.sorted);
      owned = (own ∙ tidy.owned.0, rest.owned);
      apart = (tidy.apart.0, rest.apart);
    }

-- A write to a context that is not in the list
pub set_context-AreSame :
    (cs : ℕ → SessionContext) (c : ℕ) (v : SessionContext) (xs : List Item)
    → IsUnlisted c xs
    → AreSame cs (set_context cs c v) xs
set_context-AreSame cs c v [] u = tt
set_context-AreSame cs c v (x ∷ xs) (n, u) =
    let other : (x.context == c) ≡ false = ground (arith, n) in
    let same : set_context cs c v x.context ≡ cs x.context = rw other refl in
    (
      ap (λ y. y.session_expiry_time) same,
      ap (λ y. y.expiry_list_item) same,
      set_context-AreSame cs c v xs u,
    )

-- A context that points to no item is not in the list.
pub owned-IsUnlisted :
    (cs : ℕ → SessionContext) (c : ℕ) (xs : List Item)
    → AreOwned cs xs
    → (cs c).expiry_list_item ≡ none
    → IsUnlisted c xs
owned-IsUnlisted cs c [] own e = tt
owned-IsUnlisted cs c (x ∷ xs) (own, more) e = (
  (λ same.
      let both : some x.number ≡ none = sym own ∙ ap (λ y. (cs y).expiry_list_item) same ∙ e in cc),
  owned-IsUnlisted cs c xs more e,
)
