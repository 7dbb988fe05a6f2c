-- ===== src/Server/Gui/Targets/Hidden.antt =====
-- What of a target the request log shows.
use proxywi.Common.{
  ◌≡◌, refl, ◌∙◌, ◌⊎◌, inl, inr, true, false, Option, [], ◌∷◌, map, Bool-cases, Bytes, codes,
  has_prefix, split, join,
}
use proxywi.Server.Gui.Targets.{anonymize_target, split_target_host_port, mask_label, with_port}
use proxywi.Server.Gui.Targets.Split.{split_target_host_port_lem, split_target_host_port-bracket}
use proxywi.Server.Gui.Targets.Labels.{all_hide, mask_host-hides}

-- What is shown for a target of a host and a port: a host in brackets is hidden whole; of another,
-- label by label, as many stars and bytes as the label has, no byte of a label of one or two, at most
-- two of a label of three, and at most three of a longer one.
abbrev pub Shows : Bytes → Bytes → Option Bytes → Bytes → Type 0
Shows t host port out =
    ((has_prefix t (codes "[") ≡ true) × (out ≡ with_port (codes "[****]") port))
    ⊎ ((has_prefix t (codes "[") ≡ false)
        × (h : Bytes) × (out ≡ with_port h port)
        × (all_hide (split h b'.') (split host b'.') ≡ true))

-- Whatever the target: the host and the port, where there is one, are the target, with the colon
-- between them; the log shows the port, and in place of a host in brackets "[****]", in place of
-- another host one of as many labels, each as long as the host's, with stars for all its bytes but at
-- most three, two of a label of three, and none of a label of one or two.
pub anonymize_target-Shows :
    (t : Bytes)
    → let (host, port) = split_target_host_port t in
      (with_port host port ≡ t) × Shows t host port (anonymize_target t)
unfolding anonymize_target split
anonymize_target-Shows [] = (split_target_host_port_lem [], inr (refl, [], refl, refl))
anonymize_target-Shows (c ∷ t) =
    let (host, port) = split_target_host_port (c ∷ t) in
    let bracket = split_target_host_port-bracket (c ∷ t) in
    (
      split_target_host_port_lem (c ∷ t),
      elim (Bool-cases (has_prefix (c ∷ t) (codes "["))) [
        | inl e ↦ inl (e, rw (anonymize_target, bracket ∙ e) refl)
        | inr e ↦ inr (
          e,
          join (map mask_label (split host b'.')) b'.',
          rw (anonymize_target, bracket ∙ e) refl,
          mask_host-hides host,
        )
      ],
    )
