-- ===== src/Secret/Saved.antt =====
-- Secrets that are saved and loaded again by internal/secret/rotation.go.
use mathlib.Core.List.{append_assoc, append-nil}
use nyxora.Common.{ℕ, ◌≡◌, ◌≢◌, refl, ap, sym, ◌∙◌, false, List, [], ◌∷◌, ◌++◌, map, arith, All}
use nyxora.Common.Bytes.{
  Bytes, bytes_eq, bytes_eq_iff, pieces, Lacks, terminated, pieces-terminated, cut_at-run,
}
use nyxora.Secret.Files.{
  put_bytes, split_lines, split_key_equals_value, save_text, save_secrets, store_parts, load_line,
  load_lines, load_secrets,
}

-- What the format can hold: no line break, and no equals sign in a name.
abbrev pub IsSavable : Bytes × Bytes → Type 0
IsSavable e = Lacks b'=' e.0 × Lacks b'\n' e.0 × Lacks b'\n' e.1

-- No two entries have one name, as in every map.
abbrev pub AreDistinct : List (Bytes × Bytes) → Type 0
AreDistinct [] = Unit
AreDistinct (e ∷ m) = All (λ x. x.0 ≢ e.0) m × AreDistinct m

abbrev line_of : Bytes × Bytes → Bytes
line_of e = e.0 ++ (b'=' ∷ e.1)

save_text_lem :
    (m : List (Bytes × Bytes)) (data' : Bytes)
    → save_text data' m ≡ data' ++ terminated b'\n' (map line_of m)
unfolding save_text
save_text_lem [] data' = sym (append-nil data')
save_text_lem (e ∷ m) data' = save_text_lem m _ ∙ simp (append_assoc)

Lacks-append : (sep : ℕ) (s t : Bytes) → Lacks sep s → Lacks sep t → Lacks sep (s ++ t)
Lacks-append sep [] t h k = k
Lacks-append sep (c ∷ s) t h k = (h.0, Lacks-append sep s t h.1 k)

lines-Lacks : (m : List (Bytes × Bytes)) → All IsSavable m → All (Lacks b'\n') (map line_of m)
lines-Lacks [] h = tt
lines-Lacks (e ∷ m) h = (Lacks-append b'\n' e.0 (b'=' ∷ e.1) h.0.1 (refl, h.0.2), lines-Lacks m h.1)

load_line_lem :
    (e : Bytes × Bytes) (m : List (Bytes × Bytes))
    → Lacks b'=' e.0
    → load_line (line_of e) m ≡ put_bytes m e.0 e.1
unfolding load_line split_key_equals_value
load_line_lem ([], v) m h = ap (λ parts. store_parts parts m) (cut_at-run b'=' [] [] v h)
load_line_lem (c ∷ k, v) m h = ap (λ parts. store_parts parts m) (cut_at-run b'=' (c ∷ k) [] v h)

put_bytes_new :
    (m : List (Bytes × Bytes)) (k v : Bytes)
    → All (λ x. x.0 ≢ k) m
    → put_bytes m k v ≡ m ++ ((k, v) ∷ [])
unfolding put_bytes
put_bytes_new [] k v h = refl
put_bytes_new (e ∷ m) k v h =
    let differs : bytes_eq e.0 k ≡ false = ground (arith, bytes_eq_iff e.0 k, h.0) in
    rw differs (ap (◌∷◌ e) (put_bytes_new m k v h.1))

-- No name of `m` is in `acc` yet.
abbrev AreNew : List (Bytes × Bytes) → List (Bytes × Bytes) → Type 0
AreNew acc = All (λ e. All (λ x. x.0 ≢ e.0) acc)

All-snoc :
    {A : Type 0} (P : A → Type 0) (xs : List A) (x : A) → All P xs → P x → All P (xs ++ (x ∷ []))
All-snoc P [] x h k = (k, tt)
All-snoc P (y ∷ xs) x h k = (h.0, All-snoc P xs x h.1 k)

AreNew-snoc :
    (acc m : List (Bytes × Bytes)) (e : Bytes × Bytes)
    → AreNew acc m
    → All (λ x. x.0 ≢ e.0) m
    → AreNew (acc ++ (e ∷ [])) m
AreNew-snoc acc [] e h k = tt
AreNew-snoc acc (f ∷ m) e h k =
    (All-snoc (λ x. x.0 ≢ f.0) acc e h.0 (λ q. k.0 (sym q)), AreNew-snoc acc m e h.1 k.1)

load_lines_lem :
    (m acc : List (Bytes × Bytes))
    → All IsSavable m
    → AreDistinct m
    → AreNew acc m
    → load_lines (map line_of m) acc ≡ acc ++ m
unfolding load_lines
load_lines_lem [] acc h d n = sym (append-nil acc)
load_lines_lem (e ∷ m) acc h d n =
    ap (load_lines (map line_of m)) (load_line_lem e acc h.0.0 ∙ put_bytes_new acc e.0 e.1 n.0)
    ∙ load_lines_lem m (acc ++ (e ∷ [])) h.1 d.1 (AreNew-snoc acc m e n.1 d.0)
    ∙ append_assoc acc (e ∷ []) m

AreNew-nil : (m : List (Bytes × Bytes)) → AreNew [] m
AreNew-nil [] = tt
AreNew-nil (e ∷ m) = (tt, AreNew-nil m)

-- What `SaveSecrets` writes for a map of which no name has an equals sign and no name or value has
-- a line break, `LoadSecrets` reads as the same map. Names and values may be empty, and values may
-- have equals signs.
pub load_secrets-save_secrets :
    (m : List (Bytes × Bytes)) → All IsSavable m → AreDistinct m → load_secrets (save_secrets m) ≡ m
unfolding load_secrets save_secrets split_lines
load_secrets-save_secrets m h d =
    ap (λ s. load_lines (pieces b'\n' [] s) []) (save_text_lem m [])
    ∙ ap (λ ls. load_lines ls []) (pieces-terminated b'\n' (map line_of m) (lines-Lacks m h))
    ∙ load_lines_lem m [] h d (AreNew-nil m)
