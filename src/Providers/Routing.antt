-- ===== src/Providers/Routing.antt =====
-- Which provider a role gets (internal/provider/router.go, `Resolve`).
use eclaire.Prelude.{
  ◌≡◌, ◌≢◌, All, true, refl, sym, ap, ◌∙◌, inl, inr, ℕ, suc, Bool, false, Option, none, some, List,
  [], ◌∷◌, String, ◌==◌, if◌then◌else◌, if-cases, arith, eq_iff, Bool-cases,
}
use eclaire.Prelude.Dict.{Dict, get, put, get-put}
use eclaire.Providers.{
  RouteEntry, Provider, Model, Services, Router, language_model, mark_healthy, Tried, asked,
  try_provider, go_on, resolve_entries, resolve_by_model, names, entries_for, resolve_role, resolve,
}

-- The provider is known and marked as unhealthy.
abbrev pub IsDown : String → Dict Provider → Type 0
IsDown id ps = (p : Provider) × (get ps id ≡ some p) × (p.healthy ≡ false)

put-IsDown :
    (id k : String) (q : Provider) (ps : Dict Provider)
    → (k ≡ id → q.healthy ≡ false)
    → IsDown id ps
    → IsDown id (put ps k q)
put-IsDown id k q ps same (p, e, down) = elim (Bool-cases (k == id)) [
  | inl f ↦ (
    q,
    get-put ps k id q ∙ ap (λ (b : Bool). if b then some q else get ps id) f,
    same (ground (arith, f, eq_iff k id)),
  )
  | inr f ↦ (p, get-put ps k id q ∙ ap (λ (b : Bool). if b then some q else get ps id) f ∙ e, down)
]

same-some : (x q : Provider) → some x ≡ some q → x ≡ q
same-some x q e = ap (λ (o : Option Provider). elim o [ none ↦ x | some y ↦ y ]) e

some-healthy : (q p : Provider) → some q ≡ some p → p.healthy ≡ false → q.healthy ≡ false
some-healthy q p e down =
    ap (λ (o : Option Provider). elim o [ none ↦ false | some x ↦ x.healthy ]) e ∙ down

-- Each provider is stored under its own ID.
abbrev pub IsKeyed : Dict Provider → Type 0
IsKeyed ps = (k : String) (q : Provider) → get ps k ≡ some q → q.id ≡ k

pub put-IsKeyed :
    (k : String) (q : Provider) (ps : Dict Provider) → q.id ≡ k → IsKeyed ps → IsKeyed (put ps k q)
put-IsKeyed k q ps own keyed j x e = elim (Bool-cases (k == j)) [
  | inl f ↦
      let same =
        same-some x q
          (sym e ∙ get-put ps k j q ∙ ap (λ (b : Bool). if b then some q else get ps j) f) in
      ap (λ (y : Provider). y.id) same ∙ own ∙ ground (arith, f, eq_iff k j)
  | inr f ↦
      keyed j x
        (sym (ap (λ (b : Bool). if b then some q else get ps j) f) ∙ sym (get-put ps k j q) ∙ e)
]

-- What a request for a role gets does not come from the provider.
abbrev pub Avoids : String → Option Model → Type 0
Avoids id none = Unit
Avoids id (some m) = m.provider ≢ id

-- The states that the requests for the roles lead to, one after the other, and what each one gets.
abbrev pub resolve_all : Services → ℕ → List String → Router → Router × List (Option Model)
resolve_all s round [] r = (r, [])
resolve_all s round (role ∷ roles) r =
    let (r', m) = resolve s round role r in
    let (end, ms) = resolve_all s (suc round) roles r' in (end, m ∷ ms)

module _ (s : Services) (id : String) where
  abbrev Steady : Dict Provider → Type 0
  Steady ps = IsDown id ps × IsKeyed ps

  abbrev Passes : Dict Provider × Option Model → Type 0
  Passes x = Steady x.0 × Avoids id x.1

  asked-Passes :
      (round : ℕ) (model k : String) (q : Provider) (ps : Dict Provider)
      (next : Dict Provider → Dict Provider × Option Model)
      → get ps k ≡ some q
      → q.healthy ≡ true
      → Steady ps
      → ((ps' : Dict Provider) → Steady ps' → Passes (next ps'))
      → Passes (go_on (asked (language_model s round model q)) k ps next)
  unfolding asked language_model mark_healthy
  asked-Passes round model k q ps next e well ((p, f, down), keyed) keeps =
      let own = keyed k q e in
      let sick : k ≡ id → q.healthy ≡ false =
        λ same. some-healthy q p (sym e ∙ ap (get ps) same ∙ f) down in
      if-cases (λ (x : Provider × Option Model). Passes (go_on (asked x) k ps next))
        (s.serves round q.id model) _ _
        (λ h. (
          (put-IsDown id k q ps sick (p, f, down), put-IsKeyed k q ps own keyed),
          λ same. cc (sick (sym own ∙ same), well),
        ))
        (λ h. keeps (put ps k (record q { healthy = false })) (
          put-IsDown id k (record q { healthy = false }) ps (λ same. refl) (p, f, down),
          put-IsKeyed k (record q { healthy = false }) ps own keyed,
        ))

  tried-Passes :
      (round : ℕ) (model k : String) (o : Option Provider) (ps : Dict Provider)
      (next : Dict Provider → Dict Provider × Option Model)
      → get ps k ≡ o
      → Steady ps
      → ((ps' : Dict Provider) → Steady ps' → Passes (next ps'))
      → Passes (go_on (try_provider s round model o) k ps next)
  unfolding try_provider
  tried-Passes round model k none ps next e h keeps = keeps ps h
  tried-Passes round model k (some q) ps next e h keeps =
      if-cases (λ (x : Tried). Passes (go_on x k ps next)) q.healthy _ _
        (λ well. asked-Passes round model k q ps next e well h keeps) (λ sick. keeps ps h)

  entries-Passes :
      (round : ℕ) (es : List RouteEntry) (ps : Dict Provider)
      → Steady ps
      → Passes (resolve_entries s round es ps)
  unfolding resolve_entries
  entries-Passes round [] ps h = (h, tt)
  entries-Passes round (e ∷ es) ps h =
      tried-Passes round e.model e.provider (get ps e.provider) ps
        (resolve_entries s (suc round) es) refl h (entries-Passes (suc round) es)

  names-Passes :
      (round : ℕ) (model : String) (ids : List String) (ps : Dict Provider)
      → Steady ps
      → Passes (resolve_by_model s round model ids ps)
  unfolding resolve_by_model
  names-Passes round model [] ps h = (h, tt)
  names-Passes round model (k ∷ ids) ps h =
      tried-Passes round model k (get ps k) ps (resolve_by_model s (suc round) model ids) refl h
        (names-Passes (suc round) model ids)

  role-Passes :
      (round : ℕ) (role : String) (es : List RouteEntry) (ps : Dict Provider)
      → Steady ps
      → Passes (resolve_role s round role es ps)
  unfolding resolve_role
  role-Passes round role [] ps h = names-Passes round role (names ps) ps h
  role-Passes round role (e ∷ es) ps h = entries-Passes round (e ∷ es) ps h

  -- Where each provider is stored under its own ID, one that is unhealthy stays so and is passed
  -- over: however many roles are resolved, and whatever its service would answer, no role gets a model
  -- of it.
  pub resolve_all-IsDown :
      (round : ℕ) (roles : List String) (r : Router)
      → IsKeyed r.providers
      → IsDown id r.providers
      → let (end, models) = resolve_all s round roles r in
        IsDown id end.providers × All (Avoids id) models
  unfolding resolve
  resolve_all-IsDown round [] r keyed down = (down, tt)
  resolve_all-IsDown round (role ∷ roles) r keyed down =
      let one = role-Passes round role (entries_for r role) r.providers (down, keyed) in
      let rest = resolve_all-IsDown (suc round) roles (resolve s round role r).0 one.0.1 one.0.0 in
      (rest.0, (one.1, rest.1))
