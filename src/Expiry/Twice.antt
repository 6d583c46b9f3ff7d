-- ===== src/Expiry/Twice.antt =====
-- src/session_expiry.c: a client that is in the list already, and is added again.
use dimq.Prelude.{
  ap, ◌∙◌, ◌==◌, ◌&&◌, List, [], ◌∷◌, ℕ, ◌≡◌, ◌≢◌, refl, arith, true, false, leb, inl, inr,
  Bool-cases, none, some,
}
use dimq.Result.{ok}
use dimq.Expiry.{
  SessionContext, Item, Sessions, insert_item, delete_item, time_of, is_item, put_item, take_item,
  session_expiry_add, session_expiry_remove, is_there, expiry_time,
}

is_there-insert_item :
    (cs : ℕ → SessionContext) (i j : Item) (xs : List Item)
    → is_there j xs ≡ true
    → is_there j (insert_item cs i xs) ≡ true
unfolding is_there insert_item
is_there-insert_item cs i j [] e = cc
is_there-insert_item cs i j (x ∷ xs) e = elim (Bool-cases (leb (time_of cs i) (time_of cs x))) [
  | inl b ↦
      rw b (elim (Bool-cases (is_item j.context j.number i)) [ inl t ↦ rw t refl | inr t ↦ rw t e ])
  | inr b ↦ rw b (elim (Bool-cases (is_item j.context j.number x)) [
    | inl t ↦ rw t refl
    | inr t ↦ rw t (is_there-insert_item cs i j xs (rw t at e))
  ])
]

is_there-delete_item :
    (j : Item) (c number : ℕ) (xs : List Item)
    → j.number ≢ number
    → is_there j xs ≡ true
    → is_there j (delete_item c number xs) ≡ true
unfolding is_there delete_item
is_there-delete_item j c number [] n e = cc
is_there-delete_item j c number (x ∷ xs) n e = elim (Bool-cases (is_item j.context j.number x)) [
  | inl t ↦ let other : is_item c number x ≡ false = ground (arith, t, n) in rw other (rw t refl)
  | inr t ↦ elim (Bool-cases (is_item c number x)) [
    | inl u ↦ rw u (rw t at e)
    | inr u ↦ rw (u, t) (is_there-delete_item j c number xs n (rw t at e))
  ]
]

-- Where an item of a client is in the list and the client is added again, with memory for another item
-- and a session that is to end: the add succeeds, and after `session_expiry__remove` of the client the
-- first item is still in the list, the client points to no item, and a second `session_expiry__remove`
-- of it changes nothing.
pub session_expiry_add_twice :
    (s : Sessions) (c number other persistent_client_expiration now : ℕ)
    → is_there (record { context = c; number = number }) s.expiry_list ≡ true
    → number ≢ other
    → (persistent_client_expiration == 0 && (s.contexts c).session_expiry_interval == 4294967295)
      ≡ false
    → (s' : Sessions) × (session_expiry_add (some other) persistent_client_expiration now c s
        ≡ ok s')
      × (let left = session_expiry_remove c s' in
          (is_there (record { context = c; number = number }) left.expiry_list ≡ true)
          × ((left.contexts c).expiry_list_item ≡ none)
          × (session_expiry_remove c left ≡ left))
unfolding session_expiry_add session_expiry_remove
session_expiry_add_twice s c number other p now there apart ends =
    let time = expiry_time p now (s.contexts c).session_expiry_interval in
    let s' = put_item c time other s in
    let here : (c == c) ≡ true = ground arith in
    let item : (s'.contexts c).expiry_list_item ≡ some other = rw here refl in
    let removed : session_expiry_remove c s' ≡ take_item (some other) c s' =
      ap (λ o. take_item o c s') item in
    let none_left : ((take_item (some other) c s').contexts c).expiry_list_item ≡ none =
      rw here refl in
    let left : (session_expiry_remove c s').contexts c ≡ (take_item (some other) c s').contexts c =
      ap (λ z. z.contexts c) removed in
    let gone = ap (λ y. y.expiry_list_item) left ∙ none_left in
    let cs = s'.contexts in
    (
      s',
      rw ends refl,
      (
        ap (λ z. is_there (record { context = c; number = number }) z.expiry_list) removed
            ∙ is_there-delete_item (record { context = c; number = number }) c other s'.expiry_list
                apart
                (is_there-insert_item cs (record { context = c; number = other })
                  (record { context = c; number = number }) s.expiry_list there),
        gone,
        ap (λ o. take_item o c (session_expiry_remove c s')) gone,
      ),
    )
