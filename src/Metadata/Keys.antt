-- ===== src/Metadata/Keys.antt =====
-- The printed keys of the cache tell entries apart.
use Prim.Native.String.{String}
use pipewire_gobject.Prelude.{ℕ, ◌≡◌, sym, ap, ◌∙◌}
use pipewire_gobject.Metadata.Decimal.{read, read-decimal}
use pipewire_gobject.Metadata.Cache.{cache_key}

tail : String → String
tail String.[] = String.[]
tail (String.◌∷◌ c s) = s

read-cache_key :
    (subject : ℕ) (key : String) → read 0 (cache_key subject key) ≡ (subject, String.◌∷◌ ":" key)
unfolding cache_key read
read-cache_key subject key = read-decimal subject (String.◌∷◌ ":" key)

-- Two entries share a printed key only if they have the same subject and the same key, whatever
-- digits and colons the keys contain.
pub cache_key_injective :
    (subject : ℕ) (other : ℕ) (key : String) (other_key : String)
    → cache_key subject key ≡ cache_key other other_key
    → (subject ≡ other) × (key ≡ other_key)
unfolding tail
cache_key_injective subject other key other_key h =
    let same : (subject, String.◌∷◌ ":" key) ≡ (other, String.◌∷◌ ":" other_key) =
      sym (read-cache_key subject key) ∙ ap (read 0) h ∙ read-cache_key other other_key in
    (ap (λ r. r.0) same, ap (λ r. tail r.1) same)
