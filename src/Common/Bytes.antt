-- ===== src/Common/Bytes.antt =====
-- Go's strings and byte slices where the code walks over them: lists of bytes.
use Prim.Native.Nat.{ℕ, ◌<◌}
use Prim.Native.Char.{code}
use Prim.Native.String.{String}
use mathlib.Core.Path.{◌≡◌, refl, ap, ◌∙◌}
use mathlib.Core.Logic.{◌↔◌}
use mathlib.Core.Bool.{Bool, true, false, ◌&&◌}
use mathlib.Core.List.{List, [], ◌∷◌, ◌++◌, append_assoc, append-nil}
use native.Mathlib.Omega.{arith}
use nyxora.Common.Tests.{◌==◌, if◌then◌else◌}
use nyxora.Common.Lists.{length, All}

abbrev pub Bytes : Type 0
Bytes = List ℕ

-- The bytes of an ASCII literal.
abbrev pub codes : String → Bytes
codes String.[] = []
codes (String.◌∷◌ c s) = code c ∷ codes s

abbrev pub bytes_eq : Bytes → Bytes → Bool
bytes_eq [] [] = true
bytes_eq [] (c ∷ t) = false
bytes_eq (b ∷ s) [] = false
bytes_eq (b ∷ s) (c ∷ t) = b == c && bytes_eq s t

pub bytes_eq_iff : (s t : Bytes) → (bytes_eq s t ≡ true) ↔ (s ≡ t)
bytes_eq_iff [] [] = ground arith
bytes_eq_iff [] (c ∷ t) = ground arith
bytes_eq_iff (b ∷ s) [] = ground arith
bytes_eq_iff (b ∷ s) (c ∷ t) = ground (arith, bytes_eq_iff s t)

abbrev pub Lacks : ℕ → Bytes → Type 0
Lacks sep = All (λ c. (c == sep) ≡ false)

-- The pieces of a text: one ends at each separator, and the last one counts if it is not empty.
-- `piece` is what lies between `start` and the place of the loop.
unfoldable pub pieces : ℕ → Bytes → Bytes → List Bytes
pieces sep [] [] = []
pieces sep (b ∷ piece) [] = (b ∷ piece) ∷ []
pieces sep piece (c ∷ s) =
    let ended = piece ∷ pieces sep [] s in
    let going = pieces sep (piece ++ (c ∷ [])) s in if c == sep then ended else going

-- The text before the first separator, and the text behind it if there is one.
unfoldable pub cut_at : ℕ → Bytes → Bytes → List Bytes
cut_at sep front [] = front ∷ []
cut_at sep front (c ∷ s) =
    let going = cut_at sep (front ++ (c ∷ [])) s in if c == sep then front ∷ s ∷ [] else going

-- A piece that lacks the separator is read up to the separator behind it.
pub pieces-run :
    (sep : ℕ) (body piece rest : Bytes)
    → Lacks sep body
    → pieces sep piece (body ++ (sep ∷ rest)) ≡ (piece ++ body) ∷ pieces sep [] rest
unfolding pieces
pieces-run sep [] piece rest h = rw append-nil (ground arith)
pieces-run sep (c ∷ body) piece rest h =
    rw h.0 (pieces-run sep body (piece ++ (c ∷ [])) rest h.1 ∙ rw append_assoc)

-- The last piece of a text that does not end with a separator.
pub pieces_last :
    (sep : ℕ) (body piece : Bytes)
    → Lacks sep body
    → 0 < length (piece ++ body)
    → pieces sep piece body ≡ (piece ++ body) ∷ []
unfolding pieces
pieces_last sep [] [] h k = absurd (omega arith)
pieces_last sep [] (b ∷ piece) h k = rw append-nil
pieces_last sep (c ∷ body) piece h k = rw h.0 (
    pieces_last sep body (piece ++ (c ∷ [])) h.1 (rw (append_assoc piece (c ∷ []) body) k)
    ∙ rw append_assoc)

-- Lines, each with its separator behind it.
abbrev pub terminated : ℕ → List Bytes → Bytes
terminated sep [] = []
terminated sep (l ∷ ls) = l ++ (sep ∷ terminated sep ls)

-- Pieces with a separator between them.
abbrev pub separated : ℕ → List Bytes → Bytes
separated sep [] = []
separated sep (l ∷ []) = l
separated sep (l ∷ m ∷ ls) = l ++ (sep ∷ separated sep (m ∷ ls))

pub pieces-terminated :
    (sep : ℕ) (ls : List Bytes) → All (Lacks sep) ls → pieces sep [] (terminated sep ls) ≡ ls
pieces-terminated sep [] h = unfold pieces in refl
pieces-terminated sep (l ∷ ls) h =
    pieces-run sep l [] (terminated sep ls) h.0 ∙ ap (◌∷◌ l) (pieces-terminated sep ls h.1)

pub pieces-separated :
    (sep : ℕ) (ls : List Bytes)
    → All (Lacks sep) ls
    → All (λ l. 0 < length l) ls
    → pieces sep [] (separated sep ls) ≡ ls
pieces-separated sep [] h k = unfold pieces in refl
pieces-separated sep (l ∷ []) h k = pieces_last sep l [] h.0 k.0
pieces-separated sep (l ∷ m ∷ ls) h k =
    pieces-run sep l [] (separated sep (m ∷ ls)) h.0
    ∙ ap (◌∷◌ l) (pieces-separated sep (m ∷ ls) h.1 k.1)

pub cut_at-run :
    (sep : ℕ) (body front rest : Bytes)
    → Lacks sep body
    → cut_at sep front (body ++ (sep ∷ rest)) ≡ (front ++ body) ∷ rest ∷ []
unfolding cut_at
cut_at-run sep [] front rest h = rw append-nil (ground arith)
cut_at-run sep (c ∷ body) front rest h =
    rw h.0 (cut_at-run sep body (front ++ (c ∷ [])) rest h.1 ∙ rw append_assoc)
