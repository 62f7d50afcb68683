-- ===== src/Shell/Tests.antt =====
-- Output in two writes, and an environment (internal/tool/executor.go).
use eclaire.Prelude.{◌≡◌, refl, ◌≤◌, true, List, [], ◌∷◌, length, take}
use eclaire.Prelude.Text.{Chars, codes}
use eclaire.Shell.{write_all, new_buffer, sanitize_env, env_key}
use eclaire.Shell.Limits.{output, write_all-first}

abbrev two_writes : List Chars
two_writes = codes "ab" ∷ codes "cd" ∷ []

write_all-first_example :
    let lb = write_all two_writes (new_buffer 3) in
    (lb.buf ≡ take 3 (output two_writes)) × (lb.truncated ≡ true → 3 ≤ length (output two_writes))
write_all-first_example = write_all-first 3 two_writes

no_preload : sanitize_env (codes "LD_PRELOAD=x" ∷ codes "HOME=/" ∷ []) ≡ codes "HOME=/" ∷ []
unfolding sanitize_env env_key
no_preload = refl
