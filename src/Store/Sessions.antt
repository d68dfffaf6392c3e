-- ===== src/Store/Sessions.antt =====
-- src/mask/session.rs: the table of sessions, and `sweep`.
use maskit_rs.Base.{
  ◌≡◌, ◌<◌, ◌≤◌, ◌-◌, ℕ, refl, Bool, true, false, List, ◌∷◌, [], Option, Text, none, some,
  if◌then◌else◌, arith, contains, Bool-cases, inl, inr,
}
use maskit_rs.Base.Map.{
  text_eq, text_eq_iff, lookup, remove, lookup-remove, Distinct, remove-Distinct, insert-Distinct,
  update-Distinct,
}
use maskit_rs.Store.{
  Session, SessionStore, expired, expired_keys, remove_all, sweep, new_session, touch, drop_session,
  empty_session,
}

pub lookup-remove_all {ℓ} :
    {V : Type ℓ} (j : Text) (ks : List Text) (m : List (Text × V))
    → lookup j (remove_all ks m) ≡ (if contains ks j then none else lookup j m)
unfolding remove_all
lookup-remove_all j [] m = refl
lookup-remove_all j (k ∷ ks) m =
    ground (arith, lookup-remove_all j ks (remove k m), lookup-remove k j m)

-- Whether the session under the key, if there is one, has expired.
abbrev pub expires : ℕ → ℕ → Option Session → Bool
expires ttl_secs now none = false
expires ttl_secs now (some s) = expired ttl_secs now s

expired_keys_absent :
    (ttl_secs now : ℕ) (j : Text) (m : List (Text × Session))
    → lookup j m ≡ none
    → contains (expired_keys ttl_secs now m) j ≡ false
unfolding lookup expired_keys
expired_keys_absent ttl_secs now j [] h = refl
expired_keys_absent ttl_secs now j ((k, s) ∷ m) h =
    ground (arith, expired_keys_absent ttl_secs now j m, Bool-cases (expired ttl_secs now s))

contains-expired_keys :
    (ttl_secs now : ℕ) (j : Text) (m : List (Text × Session))
    → Distinct m
    → contains (expired_keys ttl_secs now m) j ≡ expires ttl_secs now (lookup j m)
unfolding lookup expired_keys
contains-expired_keys ttl_secs now j [] d = refl
contains-expired_keys ttl_secs now j ((k, s) ∷ m) d = elim (Bool-cases (text_eq k j)) [
  | inl e ↦
      let same : lookup j m ≡ none = ground (arith, text_eq_iff k j, d.0) in
      elim (Bool-cases (expired ttl_secs now s)) [
        | inl x ↦ ground (arith, e, x)
        | inr x ↦ ground (arith, e, x, expired_keys_absent ttl_secs now j m same)
      ]
  | inr e ↦ elim (Bool-cases (expired ttl_secs now s)) [
    | inl x ↦ ground (arith, e, x, contains-expired_keys ttl_secs now j m d.1)
    | inr x ↦ ground (arith, e, x, contains-expired_keys ttl_secs now j m d.1)
  ]
]

swept :
    (ttl_secs now : ℕ) (sid : Text) (st : SessionStore)
    → Distinct st.sessions
    → lookup sid (sweep ttl_secs now st).sessions
      ≡ (if expires ttl_secs now (lookup sid st.sessions) then none else lookup sid st.sessions)
unfolding sweep
swept ttl_secs now sid st d = ground (
  arith,
  lookup-remove_all sid (expired_keys ttl_secs now st.sessions) st.sessions,
  contains-expired_keys ttl_secs now sid st.sessions d,
)

-- In a table of distinct keys, a sweep removes exactly the sessions that are not in flight and have
-- been idle for longer than the limit; every other one stays as it is, and none is added.
pub lookup-sweep :
    (ttl_secs now : ℕ) (sid : Text) (st : SessionStore)
    → Distinct st.sessions
    → (lookup sid st.sessions ≡ none → lookup sid (sweep ttl_secs now st).sessions ≡ none)
      × ((s : Session)
          → lookup sid st.sessions ≡ some s
          → (s.inflight ≡ false
              → ttl_secs < now - s.ts
              → lookup sid (sweep ttl_secs now st).sessions ≡ none)
            × (s.inflight ≡ true → lookup sid (sweep ttl_secs now st).sessions ≡ some s)
            × (now - s.ts ≤ ttl_secs → lookup sid (sweep ttl_secs now st).sessions ≡ some s))
lookup-sweep ttl_secs now sid st d =
    let e = swept ttl_secs now sid st d in
    (
      λ h. ground (arith, e, h),
      λ s h. (
        λ idle long. ground (arith, e, h),
        λ busy. ground (arith, e, h),
        λ short. ground (arith, e, h),
      ),
    )

remove_all-Distinct {ℓ} :
    {V : Type ℓ} (ks : List Text) (m : List (Text × V)) → Distinct m → Distinct (remove_all ks m)
unfolding remove_all
remove_all-Distinct [] m d = d
remove_all-Distinct (k ∷ ks) m d = remove_all-Distinct ks (remove k m) (remove-Distinct k m d)

-- Every operation on the table keeps its keys distinct.
pub sessions-Distinct :
    (sid : Text) (ttl_secs now : ℕ) (st : SessionStore)
    → Distinct st.sessions
    → Distinct (new_session sid now st).sessions
      × Distinct (touch sid now st).sessions
      × Distinct (drop_session sid st).sessions
      × Distinct (sweep ttl_secs now st).sessions
unfolding new_session touch drop_session sweep
sessions-Distinct sid ttl_secs now st d = (
  insert-Distinct sid (empty_session now) st.sessions d,
  update-Distinct sid (λ s. record s { ts = now }) st.sessions d,
  remove-Distinct sid st.sessions d,
  remove_all-Distinct (expired_keys ttl_secs now st.sessions) st.sessions d,
)
