-- ===== src/Permissions/Approvals.antt =====
-- What approvals cover (internal/tool/permission.go, `Approve`, `ApprovePattern` and `isApproved`).
use eclaire.Prelude.{
  ◌≡◌, ◌≢◌, refl, true, false, Option, none, some, List, ◌∷◌, String, ◌==◌, eq_iff, eq_refl, arith,
}
use eclaire.Prelude.Text.{text_append, text_append_assoc, text_before, text_before-append, free_of}
use eclaire.Tools.{key}
use eclaire.Permissions.{PermissionChecker, approve, approve_pattern, is_approved, by_binary}

-- An approval of a tool covers every call of it by that agent.
approve-covers :
    (agent tool pattern : String) (c : PermissionChecker)
    → is_approved (key agent tool) tool pattern (approve agent tool c) ≡ true
unfolding is_approved approve
approve-covers agent tool pattern c = ground (arith, eq_refl (key agent tool))

-- An approval of a pattern covers the shell calls of that pattern.
approve_pattern-covers :
    (agent pattern : String) (c : PermissionChecker)
    → pattern ≢ ""
    → is_approved (key agent "shell") "shell" pattern (approve_pattern agent "shell" pattern c)
      ≡ true
unfolding is_approved approve_pattern
approve_pattern-covers agent pattern c h =
    ground (arith, h, eq_iff pattern "", eq_refl (key (key agent "shell") pattern))

-- An approval of one word covers the shell calls whose pattern begins with that word.
pub approve_pattern-subcommands :
    (agent binary pattern : String) (c : PermissionChecker)
    → pattern ≢ ""
    → text_before 32 pattern ≡ some binary
    → is_approved (key agent "shell") "shell" pattern (approve_pattern agent "shell" binary c)
      ≡ true
unfolding is_approved approve_pattern by_binary
approve_pattern-subcommands agent binary pattern c h e =
    ground (arith, h, e, eq_iff pattern "", eq_refl (key (key agent "shell") binary))

-- Keys of different agents differ, where no agent's ID has a colon.
key_ne :
    (a b x y : String)
    → free_of 58 a ≡ true
    → free_of 58 b ≡ true
    → a ≢ b
    → (key a x == key b y) ≡ false
key_ne a b x y ha hb h =
    ground
      (arith, h, eq_iff (key a x) (key b y), text_before-append a x ha, text_before-append b y hb)

key-key : (a t p : String) → key (key a t) p ≡ key a (text_append t (text_append ":" p))
key-key a t p = text_append_assoc a (text_append ":" t) (text_append ":" p)

ne_binary :
    (k b u : String) (keys : List String) (o : Option String) (c : PermissionChecker)
    → ((y : String) → (k == key (key b u) y) ≡ false)
    → by_binary (key b u) o (k ∷ keys) ≡ by_binary (key b u) o keys
unfolding by_binary
ne_binary k b u keys none c h = refl
ne_binary k b u keys (some y) c h = rw (h y) refl

adding_key :
    (k b u pattern : String) (c : PermissionChecker)
    → (k == key b u) ≡ false
    → ((y : String) → (k == key (key b u) y) ≡ false)
    → is_approved (key b u) u pattern (record c { approved = k ∷ c.approved })
      ≡ is_approved (key b u) u pattern c
unfolding is_approved
adding_key k b u pattern c h h' =
    rw (h, h' pattern, ne_binary k b u c.approved (text_before 32 pattern) c h') refl

-- For two different agents whose IDs have no colon: no approval, of a tool or of a pattern, that
-- the one is given changes what is approved for the other.
pub approve-isolated :
    (a b t u pattern shape : String) (c : PermissionChecker)
    → free_of 58 a ≡ true
    → free_of 58 b ≡ true
    → a ≢ b
    → (is_approved (key b u) u pattern (approve a t c) ≡ is_approved (key b u) u pattern c)
      × (is_approved (key b u) u pattern (approve_pattern a t shape c)
          ≡ is_approved (key b u) u pattern c)
unfolding approve approve_pattern
approve-isolated a b t u pattern shape c ha hb h = (
  adding_key (key a t) b u pattern c (key_ne a b t u ha hb h)
      (λ y. rw (key-key b u y) (key_ne a b t _ ha hb h)),
  adding_key (key (key a t) shape) b u pattern c (rw (key-key a t shape) (key_ne a b _ u ha hb h))
      (λ y. rw (key-key a t shape, key-key b u y) (key_ne a b _ _ ha hb h)),
)
