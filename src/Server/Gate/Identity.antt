-- ===== src/Server/Gate/Identity.antt =====
-- Whose request it is: where the identity that the later middlewares read comes from.
use litemlflow.Prelude.{
  Bool, true, false, Option, none, some, ◌≡◌, ◌⊎◌, inl, inr, refl, ◌∙◌, Text, codes, text_eq,
  text_eq→eq, if◌then◌else◌, Result, Bool-cases, Option-cases, contains,
}
use litemlflow.Model.{Session}
use litemlflow.Server.Rbac.{is_public_path}
use litemlflow.Server.Gate.{
  Request, next, status, Outcome, strip_identity, with_session, with_basic, with_anonymous, charge,
  basic_auth, by_mode, find_session, auth_middleware,
}

-- How a request that goes on was identified: not at all, on a public path; by a session that its
-- cookie names; as anonymous, with authentication off; or by Basic credentials that verify.
abbrev pub Identified :
    (Text → Text → Bool) → Option (Text → Result Session) → Text → Request → Request → Type 0
Identified verify sessions auth sent r =
    ((is_public_path sent.path ≡ true) × (r ≡ strip_identity sent))
    ⊎ ((id : Text) × (s : Session) × (find_session sessions (strip_identity sent) ≡ some (id, s))
        × (r ≡ with_session s (strip_identity sent)))
    ⊎ ((auth ≡ codes "none") × (r ≡ with_anonymous (strip_identity sent)))
    ⊎ ((user : Text) × (pass : Text) × (auth ≡ codes "basic")
        × (sent.basic ≡ some (user, pass))
        × (verify user pass ≡ true)
        × (r ≡ with_basic user (strip_identity sent)))

two_stops : {r : Request} (b : Bool) → (if b then status 401 else status 429) ≡ next r → ⊥
two_stops true h = cc
two_stops false h = cc

abbrev others : {L : Type 0} → L → Bool → Bool → Outcome L
others l oidc html =
    if oidc
    then record { reply = if html then status 302 else status 401; limiter = l; touched = none }
    else record { reply = status 500; limiter = l; touched = none }

others_stop :
    {L : Type 0} {r : Request} (l : L) (oidc html : Bool) → (others l oidc html).reply ≡ next r → ⊥
others_stop l true true h = cc
others_stop l true false h = cc
others_stop l false html h = cc

same_path : (r : Request) → (strip_identity r).path ≡ r.path
unfolding strip_identity
same_path r = refl

same_basic : (r : Request) → r.basic ≡ (strip_identity r).basic
unfolding strip_identity
same_basic r = refl

module _ {L : Type 0} (verify : Text → Text → Bool) (allow : Option (L → Request → Bool × L)) where
  -- The headers of identity that a client sends have no influence: whatever they hold, the reply,
  -- the limiter and the touched session are the same.
  pub auth_middleware-headers :
      (sessions : Option (Text → Result Session)) (auth user how role : Text) (l : L)
      (sent : Request)
      → auth_middleware verify allow sessions auth l
          (record sent { user_header = user; auth_method_header = how; role_header = role })
        ≡ auth_middleware verify allow sessions auth l sent
  unfolding auth_middleware strip_identity
  auth_middleware-headers sessions auth user how role l sent = refl

  charge-stops : (l : L) (r r' : Request) → (charge verify allow l r).reply ≡ next r' → ⊥
  unfolding charge
  charge-stops l r r' h = elim (Option-cases allow) [
    | inl e ↦ cc (rw (e, charge) at h)
    | inr (f, e) ↦ two_stops (f l r).0 (rw (e, charge) at h)
  ]

  basic_auth-next :
      (l : L) (r r' : Request)
      → (basic_auth verify allow l r).reply ≡ next r'
      → (user : Text) × (pass : Text) × (r.basic ≡ some (user, pass))
        × (verify user pass ≡ true)
        × (r' ≡ with_basic user r)
  unfolding basic_auth
  basic_auth-next l r r' h = elim (Option-cases r.basic) [
    | inl e ↦ absurd (cc (rw (e, basic_auth) at h))
    | inr ((user, pass), e) ↦ elim (Bool-cases (verify user pass)) [
      | inl right ↦ (user, pass, e, right, cc (rw (e, right, basic_auth) at h))
      | inr wrong ↦ absurd (charge-stops l r r' (rw (e, wrong, basic_auth) at h))
    ]
  ]

  by_mode-next :
      (auth : Text) (l : L) (r r' : Request)
      → (by_mode verify allow auth l r).reply ≡ next r'
      → ((auth ≡ codes "none") × (r' ≡ with_anonymous r))
        ⊎ ((user : Text) × (pass : Text) × (auth ≡ codes "basic")
            × (r.basic ≡ some (user, pass))
            × (verify user pass ≡ true)
            × (r' ≡ with_basic user r))
  unfolding by_mode
  by_mode-next auth l r r' h = elim (Bool-cases (text_eq auth (codes "none"))) [
    | inl off ↦ inl (text_eq→eq auth (codes "none") off, cc (rw (off, by_mode) at h))
    | inr on ↦ elim (Bool-cases (text_eq auth (codes "basic"))) [
      | inl basic ↦
          let (user, pass, given, right, e) =
            basic_auth-next l r r' (rw (on, basic, by_mode) at h) in
          inr (user, pass, text_eq→eq auth (codes "basic") basic, given, right, e)
      | inr other ↦ absurd (
          others_stop l (text_eq auth (codes "oidc")) (contains r.accept (codes "text/html"))
            (rw (on, other, by_mode) at h))
    ]
  ]

  -- A request that goes on was identified in one of the four ways, with the identity headers of
  -- the client gone.
  pub auth_middleware-next :
      (sessions : Option (Text → Result Session)) (auth : Text) (l : L) (sent r : Request)
      → (auth_middleware verify allow sessions auth l sent).reply ≡ next r
      → Identified verify sessions auth sent r
  unfolding auth_middleware strip_identity
  auth_middleware-next sessions auth l sent r h = elim (Bool-cases (is_public_path sent.path)) [
    | inl exempt ↦ inl (exempt, cc (rw (same_path sent, exempt, auth_middleware) at h))
    | inr scoped ↦ elim (Option-cases (find_session sessions (strip_identity sent))) [
      | inr ((id, s), found) ↦
          inr (inl (id, s, found, cc (rw (same_path sent, scoped, found, auth_middleware) at h)))
      | inl missing ↦
          elim (by_mode-next auth l (strip_identity sent) r
            (rw (same_path sent, scoped, missing, auth_middleware) at h)) [
              | inl off ↦ inr (inr (inl off))
              | inr (user, pass, mode, given, right, e) ↦
                  inr (inr (inr (user, pass, mode, same_basic sent ∙ given, right, e)))
            ]
    ]
  ]
