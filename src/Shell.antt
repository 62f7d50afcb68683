-- ===== src/Shell.antt =====
-- The output and the environment of shell commands (internal/tool/executor.go). Text is a list of its
-- bytes here. The run of a command itself is the shell's.
pub mod Limits
mod Tests
use eclaire.Prelude.{
  ℕ, zero, suc, ◌-◌, Bool, true, false, not, ◌&&◌, ◌||◌, List, [], ◌∷◌, ◌++◌, String, ltb, leb, eqb,
  if◌then◌else◌, length, take,
}
use eclaire.Prelude.Text.{Chars, codes, same}

pub record LimitedBuffer : Type 0 where
  pub buf : Chars
  pub max : ℕ
  pub truncated : Bool

abbrev pub new_buffer : ℕ → LimitedBuffer
new_buffer max = record { buf = []; max = max; truncated = false }

-- `Write`; it always answers the length of `p`, and no error.
unfoldable pub write : Chars → LimitedBuffer → LimitedBuffer
write p lb =
    let remaining = lb.max - length lb.buf in
    if lb.truncated
    then lb
    else if leb remaining 0
    then record lb { truncated = true }
    else if ltb remaining (length p)
    then record lb { buf = lb.buf ++ take remaining p; truncated = true }
    else record lb { buf = lb.buf ++ p }

-- The writes of a command, in turn.
unfoldable pub write_all : List Chars → LimitedBuffer → LimitedBuffer
write_all [] lb = lb
write_all (p ∷ ps) lb = write_all ps (write p lb)

-- Up to the first `=`.
unfoldable pub env_key : Chars → Chars
env_key [] = []
env_key (c ∷ s) = if eqb c 61 then [] else c ∷ env_key s

abbrev blocked : Chars → Bool
blocked k =
    same k (codes "LD_PRELOAD")
    || (same k (codes "LD_LIBRARY_PATH")
        || (same k (codes "DYLD_INSERT_LIBRARIES") || same k (codes "DYLD_LIBRARY_PATH")))

unfoldable pub sanitize_env : List Chars → List Chars
sanitize_env [] = []
sanitize_env (e ∷ es) = let rest = sanitize_env es in if blocked (env_key e) then rest else e ∷ rest

-- The timeouts count seconds; `max` is 0 or less, here 0, where the policy has none.
unfoldable pub clamp_timeout : ℕ → ℕ → ℕ
clamp_timeout max requested = if ltb 0 max && ltb max requested then max else requested
