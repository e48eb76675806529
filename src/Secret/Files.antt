-- ===== src/Secret/Files.antt =====
-- The text of `SaveSecrets` and the reading of `LoadSecrets` in internal/secret/rotation.go.
-- Reading and writing the file is left out.
use nyxora.Common.{List, [], ◌∷◌, ◌++◌, if◌then◌else◌}
use nyxora.Common.Bytes.{Bytes, bytes_eq, pieces, cut_at}

-- `m[k] = v`, with bytes for keys.
unfoldable pub put_bytes : List (Bytes × Bytes) → Bytes → Bytes → List (Bytes × Bytes)
put_bytes [] k v = (k, v) ∷ []
put_bytes (e ∷ m) k v =
    let rest = put_bytes m k v in if bytes_eq e.0 k then (e.0, v) ∷ m else e ∷ rest

unfoldable pub split_lines : Bytes → List Bytes
split_lines s = pieces b'\n' [] s

unfoldable pub split_key_equals_value : Bytes → List Bytes
split_key_equals_value s = cut_at b'=' [] s

-- The loop of `SaveSecrets`.
unfoldable pub save_text : Bytes → List (Bytes × Bytes) → Bytes
save_text data' [] = data'
save_text data' (e ∷ m) = save_text (data' ++ (e.0 ++ (b'=' ∷ (e.1 ++ (b'\n' ∷ []))))) m

unfoldable pub save_secrets : List (Bytes × Bytes) → Bytes
unfolding save_text
save_secrets m = save_text [] m

-- The body of the loop of `LoadSecrets`, on the parts of a line.
abbrev pub store_parts : List Bytes → List (Bytes × Bytes) → List (Bytes × Bytes)
store_parts (k ∷ v ∷ []) m = put_bytes m k v
store_parts _ m = m

unfoldable pub load_line : Bytes → List (Bytes × Bytes) → List (Bytes × Bytes)
unfolding split_key_equals_value
load_line [] m = m
load_line (c ∷ line) m = store_parts (split_key_equals_value (c ∷ line)) m

unfoldable pub load_lines : List Bytes → List (Bytes × Bytes) → List (Bytes × Bytes)
unfolding load_line
load_lines [] m = m
load_lines (line ∷ lines) m = load_lines lines (load_line line m)

unfoldable pub load_secrets : Bytes → List (Bytes × Bytes)
unfolding split_lines load_lines
load_secrets data' = load_lines (split_lines data') []
