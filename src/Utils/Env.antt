-- ===== src/Utils/Env.antt =====
-- `envOrDefault` of mrp/utils.go.
use map_reduce_rpc.Prelude.{ℕ, List, [], ◌∷◌}
use map_reduce_rpc.Prelude.Env.{Env}

abbrev or_fallback : List ℕ → List ℕ → List ℕ
or_fallback fallback [] = fallback
or_fallback fallback (c ∷ s) = c ∷ s

unfoldable pub env_or_default : Env → List ℕ → List ℕ → List ℕ
env_or_default env key fallback = or_fallback fallback (env key)
