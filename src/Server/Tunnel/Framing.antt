-- ===== src/Server/Tunnel/Framing.antt =====
-- Lines over a connection: how it is cut into chunks plays no part.
use proxywi.Common.{
  ◌≡◌, refl, sym, ap, ◌∙◌, inl, inr, Option, none, some, List, [], ◌∷◌, ◌++◌, append_assoc,
  append-nil, arith, Option-cases, Bytes,
}
use proxywi.Server.Tunnel.{Reader, cut_line, read_line}

abbrev pub concat : List Bytes → Bytes
concat [] = []
concat (p ∷ ps) = p ++ concat ps

-- What a reader has still to give.
abbrev pub left : Reader → Bytes
left r = r.buffer ++ concat r.chunks

abbrev pub and_left : Option (Bytes × Reader) → Option (Bytes × Bytes)
and_left none = none
and_left (some (line, r)) = some (line, left r)

cut_line-append :
    (s more line after : Bytes)
    → cut_line s ≡ some (line, after)
    → cut_line (s ++ more) ≡ some (line, after ++ more)
unfolding cut_line
cut_line-append [] more line after h = absurd cc
cut_line-append (c ∷ s) more line after h = elim (Option-cases (cut_line s)) [
  | inl e ↦ ground (arith, e)
  | inr ((l, a), e) ↦ ground (arith, e, cut_line-append s more l a e)
]

-- `ReadBytes('\n')` gives the first line of all that the connection carries, behind the bytes read
-- ahead, and leaves exactly the bytes after that line, whichever chunks it came in; it fails exactly
-- where there is no line.
pub read_line_lem :
    (buffer : Bytes) (chunks : List Bytes)
    → and_left (read_line buffer chunks) ≡ cut_line (buffer ++ concat chunks)
unfolding read_line
read_line_lem buffer [] = elim (Option-cases (cut_line buffer)) [
  | inl e ↦ rw (append-nil buffer, and_left, e) refl
  | inr ((line, after), e) ↦
      rw (append-nil buffer, and_left, e) (ap (λ a. some (line, a)) (append-nil after))
]
read_line_lem buffer (chunk ∷ chunks) = elim (Option-cases (cut_line buffer)) [
  | inl e ↦
      rw (read_line, and_left, e)
        (read_line_lem (buffer ++ chunk) chunks
          ∙ ap cut_line (append_assoc buffer chunk (concat chunks)))
  | inr ((line, after), e) ↦
      rw (read_line, and_left, e)
        (sym (cut_line-append buffer (chunk ++ concat chunks) line after e))
]
