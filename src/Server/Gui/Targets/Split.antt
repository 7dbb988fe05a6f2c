-- ===== src/Server/Gui/Targets/Split.antt =====
-- `splitTargetHostPort` of handlers.go and the text that it cuts.
use proxywi.Common.{
  last_index, ℕ, zero, suc, ◌+◌, ◌≡◌, refl, sym, ap, ◌∙◌, inl, inr, true, Option, none, some, [],
  ◌∷◌, ◌++◌, arith, ==_iff, Bool-cases, Option-cases, take, drop, take-append-drop, drop-drop,
  Bytes, codes, has_prefix,
}
use proxywi.Server.Gui.Targets.{
  split_target_host_port, split_plain, split_bracketed, with_port, is_number,
}

last_index_lem :
    (s sub : Bytes) (i : ℕ) → last_index s sub ≡ some i → has_prefix (drop i s) sub ≡ true
unfolding last_index
last_index_lem [] sub i e = absurd cc
last_index_lem (c ∷ s) sub i e = elim (Option-cases (last_index s sub)) [
  | inr (j, q) ↦ let here : i ≡ suc j = cc (rw q at e) in rw here (last_index_lem s sub j q)
  | inl q ↦ elim (Bool-cases (has_prefix (c ∷ s) sub)) [
    | inl p ↦ let here : i ≡ 0 = cc (rw (q, p) at e) in rw here p
    | inr p ↦ absurd (cc (rw (q, p) at e))
  ]
]

head_lem :
    (s : Bytes) (c : ℕ) (p : Bytes)
    → has_prefix s (c ∷ p) ≡ true
    → (s ≡ c ∷ drop 1 s) × (has_prefix (drop 1 s) p ≡ true)
unfolding has_prefix
head_lem [] c p h = absurd cc
head_lem (d ∷ s) c p h = ground (arith, ==_iff d c)

-- Where the byte behind the first `n` is a colon, the text is what it is cut into.
glue :
    (n : ℕ) (t : Bytes)
    → drop n t ≡ b':' ∷ drop (n + 1) t
    → with_port (take n t) (some (drop (n + 1) t)) ≡ t
glue n t e = ap (λ s. take n t ++ s) (sym e) ∙ take-append-drop n t

colon_at :
    (n : ℕ) (t p : Bytes)
    → has_prefix (drop n t) (b':' ∷ p) ≡ true
    → drop n t ≡ b':' ∷ drop (n + 1) t
colon_at n t p h = (head_lem (drop n t) b':' p h).0 ∙ ap (λ s. b':' ∷ s) (drop-drop 1 n t)

split_plain_lem :
    (t : Bytes) (o : Option ℕ)
    → last_index t (codes ":") ≡ o
    → with_port (split_plain t o).0 (split_plain t o).1 ≡ t
split_plain_lem t none e = refl
split_plain_lem t (some zero) e = refl
split_plain_lem t (some (suc i)) e = elim (Bool-cases (is_number (drop (suc i + 1) t))) [
  | inr q ↦ rw q refl
  | inl q ↦ rw q (glue (suc i) t (colon_at (suc i) t [] (last_index_lem t (codes ":") (suc i) e)))
]

split_bracketed_lem :
    (t : Bytes) (o : Option ℕ)
    → last_index t (codes "]:") ≡ o
    → with_port (split_bracketed t o).0 (split_bracketed t o).1 ≡ t
split_bracketed_lem t none e = refl
split_bracketed_lem t (some zero) e = refl
split_bracketed_lem t (some (suc i)) e =
    let found = last_index_lem t (codes "]:") (suc i) e in
    let (here, behind) = head_lem (drop (suc i) t) b']' (codes ":") found in
    let colon : has_prefix (drop (suc i + 1) t) (codes ":") ≡ true =
      rw (drop-drop 1 (suc i) t) at behind in
    let same_end : suc i + 1 + 1 ≡ suc i + 2 = omega arith in
    rw same_end at (glue (suc i + 1) t (colon_at (suc i + 1) t [] colon))

-- The host and the port, where there is one, with the colon between them, are the target.
pub split_target_host_port_lem :
    (t : Bytes) → let (host, port) = split_target_host_port t in with_port host port ≡ t
unfolding split_target_host_port
split_target_host_port_lem t = elim (Bool-cases (has_prefix t (codes "["))) [
  | inl e ↦ rw e (split_bracketed_lem t (last_index t (codes "]:")) refl)
  | inr e ↦ rw e (split_plain_lem t (last_index t (codes ":")) refl)
]

bracket_kept :
    (t : Bytes) (n : ℕ) → has_prefix (take (suc n) t) (codes "[") ≡ has_prefix t (codes "[")
unfolding has_prefix
bracket_kept [] n = refl
bracket_kept (c ∷ t) n = refl

split_plain-bracket :
    (t : Bytes) (o : Option ℕ)
    → has_prefix (split_plain t o).0 (codes "[") ≡ has_prefix t (codes "[")
split_plain-bracket t none = refl
split_plain-bracket t (some zero) = refl
split_plain-bracket t (some (suc i)) = elim (Bool-cases (is_number (drop (suc i + 1) t))) [
  | inr q ↦ rw q refl
  | inl q ↦ rw q (bracket_kept t i)
]

split_bracketed-bracket :
    (t : Bytes) (o : Option ℕ)
    → has_prefix (split_bracketed t o).0 (codes "[") ≡ has_prefix t (codes "[")
split_bracketed-bracket t none = refl
split_bracketed-bracket t (some zero) = refl
split_bracketed-bracket t (some (suc i)) =
    let further : suc i + 1 ≡ suc (i + 1) = omega arith in rw further (bracket_kept t (i + 1))

-- The host begins with a bracket where the target does.
pub split_target_host_port-bracket :
    (t : Bytes) → has_prefix (split_target_host_port t).0 (codes "[") ≡ has_prefix t (codes "[")
unfolding split_target_host_port
split_target_host_port-bracket t = elim (Bool-cases (has_prefix t (codes "["))) [
  | inl e ↦
      rw (split_target_host_port, e) (split_bracketed-bracket t (last_index t (codes "]:")) ∙ e)
  | inr e ↦ rw (split_target_host_port, e) (split_plain-bracket t (last_index t (codes ":")) ∙ e)
]
