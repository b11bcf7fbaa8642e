-- ===== src/Tenant/Domain.antt =====
-- tenant/domain.rs: the validation of domain names and of the domain of an email address. The lower case
-- of a text is an argument, `lower`: Unicode has letters that the ASCII rules do not cover.
pub mod Names
pub mod Service
pub mod Lookups
pub mod Listing
mod Tests
use modo.Base.{
  ℕ, suc, Bool, true, false, not, ◌&&◌, ◌||◌, List, [], ◌∷◌, Option, none, some, if◌then◌else◌, ltb,
  ◌=ℕ◌,
}
use modo.Base.Lists.{all, take, drop}
use modo.Base.Text.{
  Text, codes, trim, byte_len, is_empty, contains_char, starts_with, ends_with, split, find,
  is_ascii_alphanumeric,
}
use modo.Base.Errors.{Result, ok, err, bad_request, ◌>>◌, ◌>>=◌}

abbrev dot : Text
dot = b'.' ∷ []

abbrev hyphen : Text
hyphen = b'-' ∷ []

-- The body of the loop over the labels.
unfoldable pub check_label : Text → Result (Unit {0})
check_label label =
    if is_empty label
    then err (bad_request (codes "domain labels must not be empty"))
    else if ltb 63 (byte_len label)
    then err (bad_request (codes "domain labels must not exceed 63 characters"))
    else if starts_with hyphen label || ends_with hyphen label
    then err (bad_request (codes "domain labels must not start or end with a hyphen"))
    else if not (all (λ c. is_ascii_alphanumeric c || c =ℕ b'-') label)
    then err
        (bad_request (codes "domain labels must contain only alphanumeric characters and hyphens"))
    else ok tt

unfoldable pub check_labels : List Text → Result (Unit {0})
unfolding check_label
check_labels [] = ok tt
check_labels (label ∷ labels) = check_label label >> check_labels labels

-- The checks of a trimmed text in lower case.
unfoldable pub check_domain : Text → Result Text
unfolding check_labels
check_domain domain =
    if is_empty domain
    then err (bad_request (codes "domain must not be empty"))
    else if not (contains_char b'.' domain)
    then err (bad_request (codes "domain must contain at least one dot"))
    else if starts_with dot domain || ends_with dot domain
    then err (bad_request (codes "domain must not start or end with a dot"))
    else if ltb 253 (byte_len domain)
    then err (bad_request (codes "domain must not exceed 253 characters"))
    else check_labels (split b'.' domain) >> ok domain

module _ (lower : Text → Text) where
  unfoldable pub validate_domain : Text → Result Text
  unfolding check_domain trim
  validate_domain domain = check_domain (lower (trim domain))

  -- The parts before and behind the first `@`, of `splitn(2, '@')`, with the test for two that are not empty.
  abbrev pub email_parts : Text → Text → Result Text
  email_parts local domain =
      if is_empty local || is_empty domain
      then err (bad_request (codes "invalid email address"))
      else validate_domain domain

  abbrev pub email_cut : Text → Option ℕ → Result Text
  email_cut email none = err (bad_request (codes "invalid email address"))
  email_cut email (some i) = email_parts (take i email) (drop (suc i) email)

  unfoldable pub extract_email_domain : Text → Result Text
  unfolding validate_domain trim
  extract_email_domain email = email_cut (trim email) (find b'@' (trim email))
