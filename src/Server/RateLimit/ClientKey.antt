-- ===== src/Server/RateLimit/ClientKey.antt =====
-- internal/server/ratelimit.go: clientKey, the key under which a request is limited. The packages net
-- and netip are parameters. Texts are the code points of the headers, an invalid byte as U+FFFD, as
-- strings.TrimSpace reads them.
use mathlib.Core.List.{reverse, reverse-append}
use mathlib.Core.Path.{subst}
use litemlflow.Prelude.{
  Bool, false, ◌||◌, List, [], ◌∷◌, ◌++◌, Option, none, some, ◌≡◌, ◌≢◌, refl, sym, ap, ◌∙◌, ◌⊎◌,
  inl, inr, if◌then◌else◌, Bool-cases, Option-cases, Text, split_on, split_on-append, join_with,
}
use litemlflow.Model.Names.{trim_space}

-- Addresses `A` and prefixes `P`, as the code uses them.
pub record Net (A P : Type 0) : Type 0 where
  -- The host of host:port.
  pub split_host : Text → Option Text
  pub parse_addr : Text → Option A
  -- Without the IPv4-in-IPv6 form and without the zone.
  pub unmapped : A → A
  pub is4 : A → Bool
  pub addr_text : A → Text
  -- The /64 prefix of an address.
  pub prefix_text : A → Text
  pub contains_addr : P → A → Bool

-- What the key of a request is derived from.
pub record Peer : Type 0 where
  pub remote_addr : Text
  -- The values of X-Forwarded-For, and X-Real-IP.
  pub forwarded : List Text
  pub real_ip : Text

-- How the walk over the hops ends: at a hop that is no trusted proxy, at a malformed one, or with all
-- of them trusted.
pub data Walk : Type 0 where
  client : Text → Walk
  malformed all_trusted : Walk

module _ {A P : Type 0} (net : Net A P) where
  -- `ipKey`
  unfoldable pub ip_key : A → Text
  ip_key ip =
      if net.is4 (net.unmapped ip)
      then net.addr_text (net.unmapped ip)
      else net.prefix_text (net.unmapped ip)

  unfoldable pub remote_host : Text → Text
  remote_host addr = elim (net.split_host addr) [ none ↦ addr | some host ↦ host ]

  -- `clientIP`
  unfoldable pub client_ip : Text → Text
  client_ip addr = elim (net.parse_addr (remote_host addr)) [
    | none ↦ remote_host addr
    | some ip ↦ ip_key ip
  ]

  unfoldable pub any_contains : List P → A → Bool
  any_contains [] ip = false
  any_contains (p ∷ ps) ip = net.contains_addr p ip || any_contains ps ip

  -- `isTrusted`
  unfoldable pub is_trusted : List P → A → Bool
  is_trusted trusted ip = any_contains trusted (net.unmapped ip)

  -- What a hop makes of the walk over the hops to its left.
  unfoldable pub hop_then : List P → Option A → Walk → Walk
  hop_then trusted none rest = malformed
  hop_then trusted (some ip) rest = if is_trusted trusted ip then rest else client (ip_key ip)

  -- The loop over the hops, from the right.
  unfoldable pub walk_hops : List P → List Text → Walk
  walk_hops trusted [] = all_trusted
  walk_hops trusted (hop ∷ hops) =
      hop_then trusted (net.parse_addr (trim_space hop)) (walk_hops trusted hops)

  abbrev pub walked_key : Walk → A → Text
  walked_key (client key) remote = key
  walked_key malformed remote = ip_key remote
  walked_key all_trusted remote = ip_key remote

  abbrev pub hops_from_right : List Text → List Text
  hops_from_right values = reverse (split_on b',' (join_with b',' values))

  abbrev pub real_ip_key : Option A → A → Text
  real_ip_key none remote = ip_key remote
  real_ip_key (some ip) remote = ip_key ip

  -- The key behind a trusted proxy, from the values of X-Forwarded-For and X-Real-IP.
  unfoldable pub proxied_key : List P → List Text → Text → A → Text
  proxied_key trusted [] real_ip remote = real_ip_key (net.parse_addr (trim_space real_ip)) remote
  proxied_key trusted (value ∷ values) real_ip remote =
      walked_key (walk_hops trusted (hops_from_right (value ∷ values))) remote

  unfoldable pub key_from : List P → Peer → Option A → Text
  key_from trusted r none = client_ip r.remote_addr
  key_from trusted r (some remote) =
      if is_trusted trusted remote
      then proxied_key trusted r.forwarded r.real_ip remote
      else client_ip r.remote_addr

  -- `clientKey`; without trusted proxies no address is trusted.
  unfoldable pub client_key : List P → Peer → Text
  client_key trusted r = key_from trusted r (net.parse_addr (remote_host r.remote_addr))

module _ {A P : Type 0} (net : Net A P) (trusted : List P) where
  walk_hops-append :
      (near far : List Text)
      → walk_hops net trusted near ≢ all_trusted
      → walk_hops net trusted (near ++ far) ≡ walk_hops net trusted near
  unfolding walk_hops hop_then
  walk_hops-append [] far h = absurd (h refl)
  walk_hops-append (hop ∷ near) far h = elim (Option-cases (net.parse_addr (trim_space hop))) [
    | inl broken ↦ rw broken refl
    | inr (ip, parsed) ↦ elim (Bool-cases (is_trusted net trusted ip)) [
      | inl proxy ↦
          rw parsed (rw proxy (walk_hops-append near far (λ e. h (rw parsed (rw proxy e)))))
      | inr other ↦ rw parsed (rw other refl)
    ]
  ]

  no_values_end : (front own : Text) → join_with b',' [] ≢ front ++ (b',' ∷ own)
  unfolding join_with
  no_values_end [] own e = cc
  no_values_end (c ∷ front) own e = cc

  -- The forwarded hops end in a text, after a comma.
  abbrev pub EndsIn : Text → Peer → Type 0
  EndsIn own r = (front : Text) × (join_with b',' r.forwarded ≡ front ++ (b',' ∷ own))

  -- The text has a hop at which the walk ends.
  abbrev pub IsDecisive : Text → Type 0
  IsDecisive own = walk_hops net trusted (reverse (split_on b',' own)) ≢ all_trusted

  -- The address of the peer is not that of a trusted proxy.
  abbrev pub IsDirectFrom : Text → Type 0
  IsDirectFrom addr =
      (ip : A) → net.parse_addr (remote_host net addr) ≡ some ip → is_trusted net trusted ip ≡ false

  abbrev pub IsDirect : Peer → Type 0
  IsDirect r = IsDirectFrom r.remote_addr

  walk_hops-front :
      (values : List Text) (front own : Text)
      → IsDecisive own
      → join_with b',' values ≡ front ++ (b',' ∷ own)
      → walk_hops net trusted (hops_from_right net values)
        ≡ walk_hops net trusted (reverse (split_on b',' own))
  walk_hops-front values front own h is =
      ap (λ t. walk_hops net trusted (reverse (split_on b',' t))) is
      ∙ ap (λ l. walk_hops net trusted (reverse l)) (split_on-append b',' front own)
      ∙ ap (walk_hops net trusted) (reverse-append (split_on b',' front) (split_on b',' own))
      ∙ walk_hops-append (reverse (split_on b',' own)) (reverse (split_on b',' front)) h

  proxied_key-own :
      (values : List Text) (real_ip front own : Text) (remote : A)
      → IsDecisive own
      → join_with b',' values ≡ front ++ (b',' ∷ own)
      → proxied_key net trusted values real_ip remote
        ≡ walked_key net (walk_hops net trusted (reverse (split_on b',' own))) remote
  unfolding proxied_key
  proxied_key-own [] real_ip front own remote h is = absurd (no_values_end front own is)
  proxied_key-own (value ∷ values) real_ip front own remote h is =
      ap (λ w. walked_key net w remote) (walk_hops-front (value ∷ values) front own h is)

  -- The key of a peer whose forwarded hops end in a decisive text.
  abbrev pub own_key : Text → Text → Option A → Text
  own_key own addr none = client_ip net addr
  own_key own addr (some remote) =
      if is_trusted net trusted remote
      then walked_key net (walk_hops net trusted (reverse (split_on b',' own))) remote
      else client_ip net addr

  key_from-own :
      (own : Text) (r : Peer)
      → IsDecisive own
      → EndsIn own r
      → (remote : Option A) → key_from net trusted r remote ≡ own_key own r.remote_addr remote
  unfolding key_from
  key_from-own own r h ends none = refl
  key_from-own own r h (front, is) (some remote) =
      elim (Bool-cases (is_trusted net trusted remote)) [
        | inl proxy ↦ rw proxy (proxied_key-own r.forwarded r.real_ip front own remote h is)
        | inr other ↦ rw other refl
      ]

  key_from-direct :
      (r : Peer)
      → (remote : Option A) → ((ip : A) → remote ≡ some ip → is_trusted net trusted ip ≡ false)
      → key_from net trusted r remote ≡ client_ip net r.remote_addr
  unfolding key_from
  key_from-direct r none h = refl
  key_from-direct r (some ip) h = rw (h ip refl) refl

  client_key-direct :
      (r : Peer) → IsDirect r → client_key net trusted r ≡ client_ip net r.remote_addr
  unfolding client_key
  client_key-direct r h = key_from-direct r (net.parse_addr (remote_host net r.remote_addr)) h

  client_key-own :
      (own : Text) (r : Peer)
      → IsDecisive own
      → EndsIn own r
      → client_key net trusted r
        ≡ own_key own r.remote_addr (net.parse_addr (remote_host net r.remote_addr))
  unfolding client_key
  client_key-own own r h ends =
      key_from-own own r h ends (net.parse_addr (remote_host net r.remote_addr))

  -- Behind a trusted proxy, two requests of the same peer whose forwarded hops end, after a comma, in
  -- the same text have the same key under the limit, whatever a client wrote in front of that text and
  -- into X-Real-IP, as long as that text has a hop that is malformed or no trusted proxy; two requests
  -- of the same peer that is no trusted proxy have the same key whatever the headers.
  pub client_key-EndsIn :
      (r s : Peer)
      → r.remote_addr ≡ s.remote_addr
      → IsDirect r ⊎ (own : Text) × IsDecisive own × EndsIn own r × EndsIn own s
      → client_key net trusted r ≡ client_key net trusted s
  client_key-EndsIn r s same (inl direct) =
      client_key-direct r direct
      ∙ ap (client_ip net) same
      ∙ sym (client_key-direct s (subst IsDirectFrom same direct))
  client_key-EndsIn r s same (inr (own, h, ends, ends')) =
      client_key-own own r h ends
      ∙ ap (λ a. own_key own a (net.parse_addr (remote_host net a))) same
      ∙ sym (client_key-own own s h ends')
