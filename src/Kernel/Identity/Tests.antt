-- ===== src/Kernel/Identity/Tests.antt =====
-- Labels of a series, and a configuration that is baked twice.
use kdevops_ng.Prelude.{◌≤◌, ◌≡◌, refl, nat_eq, string_eq, arith}
use kdevops_ng.Prelude.Words.{text_length, strip_ending, is_break}
use kdevops_ng.Prelude.Words.Lines.{IsLine}
use kdevops_ng.Kernel.Identity.{
  rstrip_joints, before_last_dash, fit_head, digits_at_end, version_here, split_trailing_version,
  refit, fit_label, strip_digest, prior_of, localversion,
}
use kdevops_ng.Kernel.Identity.Fits.{length-fit_label}
use kdevops_ng.Kernel.Identity.Keeps.{fit_label-whole}
use kdevops_ng.Kernel.Identity.Bakes.{IsDigest, localversion-localversion}

cut_at_dash : fit_label "xfs-zoned-gc-v12" 11 ≡ "xfs-v12"
unfolding fit_label string_eq split_trailing_version version_here nat_eq digits_at_end refit
    fit_head before_last_dash rstrip_joints
cut_at_dash = refl

split_series : split_trailing_version "xfs-zoned-gc-v12" ≡ ("xfs-zoned-gc", "-v12")
unfolding split_trailing_version version_here nat_eq digits_at_end string_eq
split_series = refl

length-fit_label_example : text_length (fit_label "xfs-zoned-gc-v12" 11) ≤ 11
length-fit_label_example = length-fit_label "xfs-zoned-gc-v12" 11 (rw split_series (omega arith))

label-IsLine : IsLine "gc-v2"
unfolding is_break nat_eq
label-IsLine = (refl, (refl, (refl, (refl, (refl, tt)))))

split_short : split_trailing_version "gc-v2" ≡ ("gc", "-v2")
unfolding split_trailing_version version_here nat_eq digits_at_end string_eq
split_short = refl

fits_whole : fit_label "gc-v2" 5 ≡ "gc-v2"
fits_whole = fit_label-whole "gc-v2" 5 label-IsLine (rw split_short (λ e. cc)) (omega arith)

IsDigest-of_hex : IsDigest "0123456789ab"
IsDigest-of_hex = record { hex = refl; twelve = refl }

localversion-localversion_example :
    localversion "gc" "ba9876543210" (localversion "gc" "0123456789ab" "-rc1")
    ≡ localversion "gc" "ba9876543210" "-rc1"
localversion-localversion_example =
    localversion-localversion "gc" "0123456789ab" "ba9876543210" "-rc1" IsDigest-of_hex

-- Another label does not take the old one off.
another_label : localversion "b" "ba9876543210" "-a-0123456789ab" ≡ "-a-b-ba9876543210"
unfolding localversion string_eq prior_of strip_ending strip_digest nat_eq
another_label = refl
