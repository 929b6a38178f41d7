-- ===== src/Packet/Framing/Chunks.antt =====
-- The lines that a connection delivers do not depend on how the stream was cut into reads.
use netwingfs.Prelude.{
  ℕ, zero, suc, ◌+◌, ◌<◌, ◌≡◌, ◌≢◌, refl, ap, sym, ◌∙◌, none, some, List, [], ◌∷◌, ◌++◌, length,
  drop, arith, All, Option-cases, inl, inr,
}
use mathlib.Core.List.{append_assoc, append-nil}
use netwingfs.Prelude.Bytes.{Bytes}
use netwingfs.Packet.Lines.{split_sign}
use netwingfs.Packet.Framing.{index_of, take, split_func, scan}

-- No line end stands in the line.
abbrev pub IsLine : Bytes → Type 0
IsLine line = index_of line split_sign ≡ none

-- The stream that carries the lines.
abbrev pub stream : List Bytes → Bytes
stream [] = []
stream (line ∷ lines) = line ++ (13 ∷ 10 ∷ stream lines)

abbrev pub concat : List Bytes → Bytes
concat [] = []
concat (chunk ∷ chunks) = chunk ++ concat chunks

index_of-line :
    (line rest : Bytes)
    → IsLine line
    → index_of (line ++ (13 ∷ 10 ∷ rest)) split_sign ≡ some (length line)
unfolding index_of
index_of-line [] rest h = refl
index_of-line (x ∷ []) rest h = ground arith
index_of-line (x ∷ y ∷ line) rest h = ground (arith, index_of-line (y ∷ line) rest)

index_of-append :
    (s more : Bytes) (i : ℕ)
    → index_of s split_sign ≡ some i
    → index_of (s ++ more) split_sign ≡ some i
unfolding index_of
index_of-append [] more i h = cc
index_of-append (x ∷ []) more i h = ground arith
index_of-append (x ∷ y ∷ s) more zero h = ground arith
index_of-append (x ∷ y ∷ s) more (suc i) h = ground (arith, index_of-append (y ∷ s) more i)

-- Where the separator was found, the text falls into a line, the separator and the rest.
index_of-split :
    (s : Bytes) (i : ℕ)
    → index_of s split_sign ≡ some i
    → (s ≡ take i s ++ (13 ∷ 10 ∷ drop (i + 2) s)) × (length (take i s) ≡ i)
unfolding index_of
index_of-split [] i h = cc
index_of-split (x ∷ []) i h = ground arith
index_of-split (x ∷ y ∷ s) zero h = ground arith
index_of-split (x ∷ y ∷ s) (suc i) h =
    let past : suc i + 2 ≡ suc (i + 2) = omega arith in
    let found : index_of (y ∷ s) split_sign ≡ some i = ground arith in
    rw past
      (ap (◌∷◌ x) (index_of-split (y ∷ s) i found).0, ap suc (index_of-split (y ∷ s) i found).1)

append_cancel :
    (l t r r' : Bytes)
    → length l ≡ length t
    → l ++ (13 ∷ 10 ∷ r) ≡ t ++ (13 ∷ 10 ∷ r')
    → (l ≡ t) × (r ≡ r')
append_cancel [] [] r r' n e = (refl, ground arith)
append_cancel [] (y ∷ t) r r' n e = absurd (omega arith)
append_cancel (x ∷ l) [] r r' n e = absurd (omega arith)
append_cancel (x ∷ l) (y ∷ t) r r' n e = ground (arith, append_cancel l t r r')

-- A buffer with a separator holds the first line and the start of the others.
first_line :
    (buf more line : Bytes) (lines : List Bytes) (i : ℕ)
    → IsLine line
    → index_of buf split_sign ≡ some i
    → buf ++ more ≡ stream (line ∷ lines)
    → (take i buf ≡ line) × (drop (i + 2) buf ++ more ≡ stream lines)
first_line buf more line lines i ok e h =
    let there = index_of-append buf more i e in
    let (cut, width) = index_of-split buf i e in
    let i-eq : some i ≡ some (length line) =
      sym there ∙ (ap (λ s. index_of s split_sign) h ∙ index_of-line line (stream lines) ok) in
    append_cancel (take i buf) line (drop (i + 2) buf ++ more) (stream lines) (ground arith) (
      sym (append_assoc (take i buf) (13 ∷ 10 ∷ drop (i + 2) buf) more)
      ∙ (ap (λ s. s ++ more) (sym cut) ∙ h))

no_line_left :
    (buf more line : Bytes) (lines : List Bytes)
    → IsLine line
    → index_of buf split_sign ≡ none
    → more ≡ []
    → buf ++ more ≡ stream (line ∷ lines)
    → ⊥
no_line_left buf more line lines ok e m h =
    let whole = index_of-line line (stream lines) ok in ground (arith, append-nil buf)

stream-ne-nil : (line : Bytes) (lines : List Bytes) → [] ≢ stream (line ∷ lines)
stream-ne-nil [] lines e = cc
stream-ne-nil (x ∷ line) lines e = cc

no_line_in_nil : (buf more : Bytes) (i : ℕ) → index_of buf split_sign ≡ some i → buf ++ more ≢ []
unfolding index_of
no_line_in_nil [] more i e h = cc
no_line_in_nil (x ∷ s) more i e h = cc

-- However the stream of the lines is cut into chunks, `scan` delivers just those lines, if no line
-- end stands in one and the fuel passes the number of lines and chunks.
pub scan-stream :
    (fuel : ℕ) (buf : Bytes) (chunks lines : List Bytes)
    → All IsLine lines
    → length lines + length chunks < fuel
    → buf ++ concat chunks ≡ stream lines
    → scan fuel buf chunks ≡ lines
unfolding scan split_func
scan-stream zero buf chunks lines ok f h = elim f [ ]
scan-stream (suc fuel) [] [] [] ok f h = refl
scan-stream (suc fuel) (x ∷ s) [] [] ok f h = cc
scan-stream (suc fuel) [] [] (line ∷ lines) ok f h = absurd (stream-ne-nil line lines h)
scan-stream (suc fuel) (x ∷ s) [] (line ∷ lines) ok f h =
    elim (Option-cases (index_of (x ∷ s) split_sign)) [
      | inl e ↦ absurd (no_line_left (x ∷ s) [] line lines ok.0 e refl h)
      | inr (i, e) ↦
          let (l, r) = first_line (x ∷ s) [] line lines i ok.0 e h in
          ground (arith, scan-stream fuel (drop (i + 2) (x ∷ s)) [] lines ok.1 (omega arith) r)
    ]
scan-stream (suc fuel) buf (chunk ∷ chunks) [] ok f h =
    elim (Option-cases (index_of buf split_sign)) [
      | inl e ↦ ground (
        arith,
        scan-stream fuel (buf ++ chunk) chunks [] ok (omega arith)
            (append_assoc buf chunk (concat chunks) ∙ h),
      )
      | inr (i, e) ↦ absurd (no_line_in_nil buf (concat (chunk ∷ chunks)) i e h)
    ]
scan-stream (suc fuel) buf (chunk ∷ chunks) (line ∷ lines) ok f h =
    elim (Option-cases (index_of buf split_sign)) [
      | inl e ↦ ground (
        arith,
        scan-stream fuel (buf ++ chunk) chunks (line ∷ lines) ok (omega arith)
            (append_assoc buf chunk (concat chunks) ∙ h),
      )
      | inr (i, e) ↦
          let (l, r) = first_line buf (concat (chunk ∷ chunks)) line lines i ok.0 e h in
          ground (
            arith,
            l,
            scan-stream fuel (drop (i + 2) buf) (chunk ∷ chunks) lines ok.1 (omega arith) r,
          )
    ]
