-- ===== src/Accounts/SignIn/Tests.antt =====
-- Runs of src/docketyard/citator/signin.py, with the identity as the hash of a token and of an address.
use docket_yard.Prelude.{◌≡◌, ◌≢◌, refl, String, true, none, some, [], ◌∷◌, arith, eq_iff}
use mathlib.Core.Bool.{false≢true}
use docket_yard.Prelude.Table.{any}
use docket_yard.Fleet.Rows.{is_some}
use docket_yard.Accounts.SignIn.{
  Grant, Purpose, Token, Accounts, Reviewer, grant_of, request_link, pending, sign_in, whoami,
}
use docket_yard.Accounts.SignIn.Keeps.{asks, presses, perform_all}
use docket_yard.Accounts.SignIn.Spent.{sign_in_again}
use docket_yard.Accounts.SignIn.Lives.{in_force, whoami-session}
use docket_yard.Accounts.SignIn.Reads.{sign_in-pending}

abbrev plain : String → String
plain s = s

abbrev ann : Grant
ann = record {
  reviewer_id = 7;
  email_hash = "ann@example.org";
  credit_name = "Ann";
  counts_public = true;
  revoked_at = none;
}

abbrev as_ann : Reviewer
as_ann = record { reviewer_id = 7; credit_name = "Ann"; counts_public = true }

abbrev link_row : Token
link_row = record {
  token_hash = "link";
  reviewer_id = 7;
  purpose = Purpose.sign_in_link;
  expires_at = 1300;
  issued_at = 100;
  used_at = none;
}

abbrev session_row : Token
session_row = record {
  token_hash = "tab";
  reviewer_id = 7;
  purpose = Purpose.session;
  expires_at = 43400;
  issued_at = 200;
  used_at = none;
}

abbrev asked : Accounts
asked = record { reviewer = ann ∷ []; reviewer_token = link_row ∷ [] }

abbrev entered : Accounts
entered = record { reviewer = ann ∷ []; reviewer_token = session_row ∷ [] }

asked-pending : pending plain plain 200 "link" asked ≡ some as_ann
unfolding pending
asked-pending = refl

asked-sign_in : sign_in plain plain 200 "link" "tab" asked ≡ some (some "tab", entered)
unfolding sign_in
asked-sign_in = refl

sign_in-pending_example :
    (b : Accounts) × (sign_in plain plain 200 "link" "tab" asked ≡ some (some "tab", b))
    × (whoami plain plain 200 (some "tab") b ≡ some as_ann)
sign_in-pending_example =
    sign_in-pending plain plain 200 "link" "tab" asked (tt, tt) refl refl as_ann asked-pending

other_hash : (let k : String = "next" in k ≢ "link")
other_hash e = absurd (false≢true ((eq_iff "next" "link").1 e))

sign_in_again_example :
    sign_in plain plain 900 "link" "more"
      (perform_all plain plain (asks 300 "next" "ann@example.org" ∷ []) entered)
    ≡ some (none, perform_all plain plain (asks 300 "next" "ann@example.org" ∷ []) entered)
sign_in_again_example =
    sign_in_again plain plain 200 900 "link" "tab" "more" asked entered (some "tab")
      (asks 300 "next" "ann@example.org" ∷ []) (omega arith) asked-sign_in (other_hash, tt)

signed_in :
    whoami plain plain 300 (some "tab") (
      perform_all plain plain
        (asks 100 "link" "ann@example.org" ∷ presses 200 "link" "tab" ∷ [])
        (record { reviewer = ann ∷ []; reviewer_token = [] }))
    ≡ some as_ann
unfolding whoami request_link sign_in
signed_in = refl

whoami-session_example :
    (any
        (in_force plain plain 300 "tab" 7
          (asks 100 "link" "ann@example.org" ∷ presses 200 "link" "tab" ∷ []))
        (perform_all plain plain
          (asks 100 "link" "ann@example.org" ∷ presses 200 "link" "tab" ∷ [])
          (record { reviewer = ann ∷ []; reviewer_token = [] })).reviewer_token
      ≡ true)
    × (is_some (
          grant_of 7
            (perform_all plain plain
              (asks 100 "link" "ann@example.org" ∷ presses 200 "link" "tab" ∷ [])
              (record { reviewer = ann ∷ []; reviewer_token = [] })).reviewer)
        ≡ true)
whoami-session_example =
    whoami-session plain plain 300 "tab" (ann ∷ [])
      (asks 100 "link" "ann@example.org" ∷ presses 200 "link" "tab" ∷ []) as_ann signed_in
