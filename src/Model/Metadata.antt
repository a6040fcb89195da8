-- ===== src/Model/Metadata.antt =====
-- `assertNoRawCredential` of src/model/metadata.ts, over the code points of a text.
use Prim.Native.Char.{code}
use nyst.Base.{
  ℕ, ◌+◌, String, Bool, true, false, ◌&&◌, ◌||◌, List, [], ◌∷◌, leb, eqb, any, present,
  if◌then◌else◌,
}
use nyst.Model.Action.{ActionContext}

abbrev pub codes : String → List ℕ
codes String.[] = []
codes (String.◌∷◌ c s) = code c ∷ codes s

-- The flag `i` of the pattern: only ASCII letters fold onto the pattern's.
unfoldable pub fold_case : ℕ → ℕ
fold_case c = if leb b'A' c && leb c b'Z' then c + 32 else c

-- `\s`
unfoldable pub is_space : ℕ → Bool
is_space c =
    (leb 9 c && leb c 13)
    || eqb c 32
    || eqb c 0xa0
    || eqb c 0x1680
    || (leb 0x2000 c && leb c 0x200a)
    || eqb c 0x2028
    || eqb c 0x2029
    || eqb c 0x202f
    || eqb c 0x205f
    || eqb c 0x3000
    || eqb c 0xfeff

-- The text begins with the word, and the rest passes the test.
unfoldable pub starts : List ℕ → (List ℕ → Bool) → List ℕ → Bool
unfolding fold_case
starts [] after cs = after cs
starts (w ∷ ws) after [] = false
starts (w ∷ ws) after (c ∷ cs) = eqb w (fold_case c) && starts ws after cs

unfoldable pub space_next : List ℕ → Bool
unfolding is_space
space_next [] = false
space_next (c ∷ cs) = is_space c

-- `CREDENTIAL_LIKE`, at the start of a text.
unfoldable pub credential_here : List ℕ → Bool
unfolding starts space_next
credential_here cs =
    starts (codes "apikey") (λ _. true) cs
    || starts (codes "api_key") (λ _. true) cs
    || starts (codes "api-key") (λ _. true) cs
    || starts (codes "secret") (λ _. true) cs
    || starts (codes "password") (λ _. true) cs
    || starts (codes "bearer") space_next cs
    || starts (codes "sk_live") (λ _. true) cs
    || starts (codes "sk_test") (λ _. true) cs
    || starts (codes "-----begin") (λ _. true) cs

-- `CREDENTIAL_LIKE.test(v)`
unfoldable pub credential_like : List ℕ → Bool
unfolding credential_here
credential_like [] = false
credential_like (c ∷ cs) = credential_here (c ∷ cs) || credential_like cs

-- The check throws if this holds.
unfoldable pub holds_raw_credential : ActionContext → Bool
unfolding credential_like any present
holds_raw_credential ctx =
    any (λ (v : String). credential_like (codes v))
      (present (ctx.credential_ref ∷ ctx.workload_id ∷ ctx.model_identity ∷ []))
