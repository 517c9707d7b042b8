-- ===== src/App/McpAuth.antt =====
-- The bearer token of the MCP server: app/mcp_auth.py. Decryption is a parameter, and times are in seconds of UTC
-- without a time zone, as both are compared.
use mathlib.Core.Option.{some-injective}
use job_squire.Base.{
  ℕ, Bool, true, false, not, ◌&&◌, ◌||◌, ◌≡◌, ◌↔◌, refl, ap, sym, ◌∙◌, inl, inr, Option, none, some,
  [], ◌∷◌, Text, nonempty, ◌==◌, ==_iff, ==_refl, list_eq, nat_eq, ltb, leb, if◌then◌else◌,
  Bool-cases,
}
use job_squire.App.Deploy.{Mode, local, network}

abbrev pub is_network_reachable : Mode → Bool
is_network_reachable local = false
is_network_reachable network = true

abbrev pub is_static_token_allowed : Mode → Bool → Bool
is_static_token_allowed mode allow_network = not (is_network_reachable mode) || allow_network

unfoldable pub is_ascii : Text → Bool
is_ascii [] = true
is_ascii (c ∷ s) = ltb c 128 && is_ascii s

-- `hmac.compare_digest` on two strings; `none` is the `TypeError` on a character that is not ASCII.
unfoldable pub compare_digest : Text → Text → Option Bool
compare_digest a b = if is_ascii a && is_ascii b then some (a == b) else none

-- `now > expires_at` does not hold.
abbrev pub is_current : Option ℕ → ℕ → Bool
is_current none now = true
is_current (some expires_at) now = leb now expires_at

pub compare_digest_iff :
    (a b : Text) → (compare_digest a b ≡ some true) ↔ ((b ≡ a) × (is_ascii a ≡ true))
unfolding compare_digest
compare_digest_iff a b = (to, λ h. rw (h.0, h.1, ==_refl a) refl)
  where
    to : compare_digest a b ≡ some true → (b ≡ a) × (is_ascii a ≡ true)
    to h = elim (Bool-cases (is_ascii a)) [
      | inr g ↦ absurd (cc (rw (g, compare_digest) at h))
      | inl g ↦ elim (Bool-cases (is_ascii b)) [
        | inr k ↦ absurd (cc (rw (g, k, compare_digest) at h))
        | inl k ↦ (
          sym ((==_iff a b).0 (some-injective (a == b) true (rw (g, k, compare_digest) at h))),
          g,
        )
      ]
    ]

-- The tests after decryption.
unfoldable pub check_plain : Text → Text → Option ℕ → ℕ → Option Bool
check_plain bearer plain expires_at now =
    if not (nonempty plain) then some false else elim (compare_digest bearer plain) [
      | none ↦ none
      | some false ↦ some false
      | some true ↦ some (is_current expires_at now)
    ]

check_plain_iff :
    (b s : Text) (e : Option ℕ) (n : ℕ)
    → nonempty b ≡ true
    → (check_plain b s e n ≡ some true)
      ↔ ((s ≡ b) × ((is_ascii b ≡ true) × (is_current e n ≡ true)))
unfolding check_plain
check_plain_iff b s e n g = (to, from)
  where
    from :
        (s ≡ b) × ((is_ascii b ≡ true) × (is_current e n ≡ true)) → check_plain b s e n ≡ some true
    from a =
        let same : compare_digest b s ≡ some true = (compare_digest_iff b s).1 (a.0, a.1.0) in
        rw (ap nonempty a.0 ∙ g, same, check_plain) (ap some a.1.1)

    by_digest :
        (o : Option Bool)
        → compare_digest b s ≡ o
        → nonempty s ≡ true
        → check_plain b s e n ≡ some true
        → (s ≡ b) × ((is_ascii b ≡ true) × (is_current e n ≡ true))
    by_digest none q k h = absurd (cc (rw (k, q, check_plain) at h))
    by_digest (some false) q k h = absurd (cc (rw (k, q, check_plain) at h))
    by_digest (some true) q k h =
        let both : (s ≡ b) × (is_ascii b ≡ true) = (compare_digest_iff b s).0 q in
        (both.0, (both.1, some-injective (is_current e n) true (rw (k, q, check_plain) at h)))

    to : check_plain b s e n ≡ some true → (s ≡ b) × ((is_ascii b ≡ true) × (is_current e n ≡ true))
    to h = elim (Bool-cases (nonempty s)) [
      | inr k ↦ absurd (cc (rw (k, check_plain) at h))
      | inl k ↦ by_digest (compare_digest b s) refl k h
    ]

module _ (decrypt : Text → Text) where
  unfoldable pub verify_static_token : Text → Text → Mode → Bool → Option ℕ → ℕ → Option Bool
  verify_static_token bearer stored_encrypted mode allow_network expires_at now =
      if not (nonempty bearer) || not (nonempty stored_encrypted)
      then some false
      else if not (is_static_token_allowed mode allow_network)
      then some false
      else check_plain bearer (decrypt stored_encrypted) expires_at now

  -- The token was stored, is the bearer's, may be used here, and has not expired.
  pub record IsAccepted (bearer stored_encrypted : Text) (mode : Mode) (allow_network : Bool)
      (expires_at : Option ℕ) (now : ℕ) : Type 0 where
    pub given : nonempty bearer ≡ true
    pub stored : nonempty stored_encrypted ≡ true
    pub allowed : is_static_token_allowed mode allow_network ≡ true
    pub same : decrypt stored_encrypted ≡ bearer
    pub ascii : is_ascii bearer ≡ true
    pub current : is_current expires_at now ≡ true

  -- A bearer is accepted exactly if it is not empty, is ASCII and is the token that is stored, the token may be used
  -- in this mode, and it has not expired.
  pub verify_static_token_iff :
      (bearer stored_encrypted : Text) (mode : Mode) (allow_network : Bool) (expires_at : Option ℕ)
      (now : ℕ)
      → (verify_static_token bearer stored_encrypted mode allow_network expires_at now ≡ some true)
        ↔ IsAccepted bearer stored_encrypted mode allow_network expires_at now
  unfolding verify_static_token
  verify_static_token_iff b s m w e n = (to, from)
    where
      from : IsAccepted b s m w e n → verify_static_token b s m w e n ≡ some true
      from a =
          rw (a.given, a.stored, a.allowed, verify_static_token)
            ((check_plain_iff b (decrypt s) e n a.given).1 (a.same, (a.ascii, a.current)))

      checked :
          nonempty b ≡ true
          → nonempty s ≡ true
          → is_static_token_allowed m w ≡ true
          → check_plain b (decrypt s) e n ≡ some true
          → IsAccepted b s m w e n
      checked g k l h =
          let r = (check_plain_iff b (decrypt s) e n g).0 h in
          record { given = g; stored = k; allowed = l; same = r.0; ascii = r.1.0; current = r.1.1 }

      to : verify_static_token b s m w e n ≡ some true → IsAccepted b s m w e n
      to h = elim (Bool-cases (nonempty b)) [
        | inr g ↦ absurd (cc (rw (g, verify_static_token) at h))
        | inl g ↦ elim (Bool-cases (nonempty s)) [
          | inr k ↦ absurd (cc (rw (g, k, verify_static_token) at h))
          | inl k ↦ elim (Bool-cases (is_static_token_allowed m w)) [
            | inr l ↦ absurd (cc (rw (g, k, l, verify_static_token) at h))
            | inl l ↦ checked g k l (rw (g, k, l, verify_static_token) at h)
          ]
        ]
      ]
