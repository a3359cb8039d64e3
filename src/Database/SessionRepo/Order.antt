-- ===== src/Database/SessionRepo/Order.antt =====
-- The order in which `UserSessionORMRepo.create` takes the live sessions.
use fast_api_ddd_template.Base.{
  ℕ, zero, suc, ◌≤◌, ◌≡◌, arith, Bool, List, [], ◌∷◌, leb, take, drop, where_, count_where, All,
  Bool-cases, inl, inr,
}
use fast_api_ddd_template.Database.{Time, SessionRow}
use fast_api_ddd_template.Database.SessionRepo.{live_of, insert_desc, order_desc, excess}
use fast_api_ddd_template.Database.SessionRepo.Limit.{count_where-order_desc}

-- None of the rows expires after the time.
abbrev AtMost : Time → List SessionRow → Type 0
AtMost t = All (λ (o : SessionRow). o.expires_at ≤ t)

abbrev pub IsDescending : List SessionRow → Type 0
IsDescending [] = Unit
IsDescending (x ∷ xs) = AtMost x.expires_at xs × IsDescending xs

AtMost-weaken : (t t' : Time) (xs : List SessionRow) → t ≤ t' → AtMost t xs → AtMost t' xs
AtMost-weaken t t' [] l h = tt
AtMost-weaken t t' (x ∷ xs) l h = (omega (arith, l, h.0), AtMost-weaken t t' xs l h.1)

AtMost-insert_desc :
    (t : Time) (x : SessionRow) (xs : List SessionRow)
    → x.expires_at ≤ t
    → AtMost t xs
    → AtMost t (insert_desc x xs)
unfolding insert_desc
AtMost-insert_desc t x [] l h = (l, tt)
AtMost-insert_desc t x (o ∷ os) l h = elim (Bool-cases (leb o.expires_at x.expires_at)) [
  | inl e ↦ rw e (l, h)
  | inr e ↦ rw e (h.0, AtMost-insert_desc t x os l h.1)
]

insert_desc-IsDescending :
    (x : SessionRow) (xs : List SessionRow) → IsDescending xs → IsDescending (insert_desc x xs)
unfolding insert_desc
insert_desc-IsDescending x [] h = (tt, tt)
insert_desc-IsDescending x (o ∷ os) h = elim (Bool-cases (leb o.expires_at x.expires_at)) [
  | inl e ↦
      let l : o.expires_at ≤ x.expires_at = ground (arith, e) in
      rw e ((l, AtMost-weaken o.expires_at x.expires_at os l h.0), h)
  | inr e ↦
      let l : x.expires_at ≤ o.expires_at = ground (arith, e) in
      rw e (AtMost-insert_desc o.expires_at x os l h.0, insert_desc-IsDescending x os h.1)
]

order_desc-IsDescending : (xs : List SessionRow) → IsDescending (order_desc xs)
unfolding order_desc
order_desc-IsDescending [] = tt
order_desc-IsDescending (x ∷ xs) =
    insert_desc-IsDescending x (order_desc xs) (order_desc-IsDescending xs)

-- No row of the one list expires after a row of the other.
abbrev pub NotAfter : List SessionRow → List SessionRow → Type 0
NotAfter old kept =
    All (λ (o : SessionRow). All (λ (k : SessionRow). o.expires_at ≤ k.expires_at) kept) old

NotAfter-none : (old : List SessionRow) → NotAfter old []
NotAfter-none [] = tt
NotAfter-none (x ∷ xs) = (tt, NotAfter-none xs)

NotAfter-cons :
    (x : SessionRow) (old kept : List SessionRow)
    → AtMost x.expires_at old
    → NotAfter old kept
    → NotAfter old (x ∷ kept)
NotAfter-cons x [] kept h n = tt
NotAfter-cons x (o ∷ old) kept h n = ((h.0, n.0), NotAfter-cons x old kept h.1 n.1)

AtMost-drop : (t : Time) (n : ℕ) (xs : List SessionRow) → AtMost t xs → AtMost t (drop n xs)
AtMost-drop t zero xs h = h
AtMost-drop t (suc n) [] h = tt
AtMost-drop t (suc n) (x ∷ xs) h = AtMost-drop t n xs h.1

IsDescending-NotAfter :
    (n : ℕ) (xs : List SessionRow) → IsDescending xs → NotAfter (drop n xs) (take n xs)
IsDescending-NotAfter zero xs h = NotAfter-none xs
IsDescending-NotAfter (suc n) [] h = tt
IsDescending-NotAfter (suc n) (x ∷ xs) h =
    NotAfter-cons x (drop n xs) (take n xs) (AtMost-drop x.expires_at n xs h.0)
      (IsDescending-NotAfter n xs h.1)

-- The query of `create` orders the live sessions of the user, losing and doubling none: for any
-- test, as many pass after as before. And the sessions that it takes past the first `keep`, to be
-- revoked, expire no later than any of those that it leaves.
pub excess-NotAfter :
    (t : Time) (user_id keep : ℕ) (sessions : List SessionRow) (q : SessionRow → Bool)
    → (count_where q (order_desc (where_ (live_of t user_id) sessions))
        ≡ count_where q (where_ (live_of t user_id) sessions))
      × NotAfter
          (excess t user_id keep sessions)
          (take keep (order_desc (where_ (live_of t user_id) sessions)))
unfolding excess
excess-NotAfter t user_id keep sessions q =
    let live = where_ (live_of t user_id) sessions in
    (
      count_where-order_desc q live,
      IsDescending-NotAfter keep (order_desc live) (order_desc-IsDescending live),
    )
