-- ===== src/Utils/Affixes.antt =====
-- starts_with and ends_with.
use ctranslate.Prelude.{
  ℕ, ◌-◌, true, Text, text_eq, text_eq→eq, text_eq_refl, ◌++◌, length, take, drop, ◌≡◌, ◌↔◌, sym,
  ap, ◌∙◌, arith, subst, take-append-drop, take-append_self, drop-append_self, length-append,
}
use ctranslate.Utils.Strings.{starts_with, ends_with}

starts_with-append : (prefix rest : Text) → starts_with (prefix ++ rest) prefix ≡ true
unfolding starts_with
starts_with-append prefix rest =
    ground (arith, length-append prefix rest, take-append_self prefix rest, text_eq_refl prefix)

-- `starts_with` holds exactly of the texts that are the prefix with something behind it.
pub starts_with_iff :
    (str prefix : Text) → (starts_with str prefix ≡ true) ↔ ((rest : Text) × (str ≡ prefix ++ rest))
unfolding starts_with
starts_with_iff str prefix = (
  λ h.
      let same : text_eq (take (length prefix) str) prefix ≡ true = ground (arith, h) in
      (
        drop (length prefix) str,
        sym (take-append-drop (length prefix) str)
            ∙ ap (λ l. l ++ drop (length prefix) str)
                (text_eq→eq (take (length prefix) str) prefix same),
      ),
  λ (rest, e). subst (λ s. starts_with s prefix ≡ true) (sym e) (starts_with-append prefix rest),
)

ends_with-append : (rest suffix : Text) → ends_with (rest ++ suffix) suffix ≡ true
unfolding ends_with
ends_with-append rest suffix =
    let start : length (rest ++ suffix) - length suffix ≡ length rest =
      omega (arith, length-append rest suffix) in
    ground
      (arith, start, length-append rest suffix, drop-append_self rest suffix, text_eq_refl suffix)

-- `ends_with` holds exactly of the texts that are the suffix with something before it.
pub ends_with_iff :
    (str suffix : Text) → (ends_with str suffix ≡ true) ↔ ((rest : Text) × (str ≡ rest ++ suffix))
unfolding ends_with
ends_with_iff str suffix = (
  λ h.
      let n : ℕ = length str - length suffix in
      let same : text_eq (drop n str) suffix ≡ true = ground (arith, h) in
      (
        take n str,
        sym (take-append-drop n str)
            ∙ ap (λ l. take n str ++ l) (text_eq→eq (drop n str) suffix same),
      ),
  λ (rest, e). subst (λ s. ends_with s suffix ≡ true) (sym e) (ends_with-append rest suffix),
)
