-- ===== src/Accounts/Subscriptions/Suppressed.antt =====
-- src/docketyard/alerts/subscriptions.py, `suppress`: a suppressed recipient is never mailed again.
use docket_yard.Prelude.{
  ℕ, ◌≡◌, refl, ◌∙◌, String, true, false, not, ◌&&◌, ◌||◌, none, some, List, [], ◌∷◌, str_eq,
  eq_iff, Bool-cases, inl, inr,
}
use docket_yard.Prelude.Table.{any-append}
use docket_yard.Fleet.Rows.{is_some}
use docket_yard.Accounts.Follows.{Follows, Ask, Suppression, is_suppressed}
use docket_yard.Accounts.Subscriptions.{subscribe, suppress}
use docket_yard.Accounts.Subscriptions.Calls.{Call, perform_all}
use docket_yard.Accounts.Subscriptions.Steps.{Kept, perform_all-keeps}

-- One of a docket and a party is named, and the channel is one that is served.
abbrev pub IsAsk : Ask → Type 0
IsAsk a =
    ((not (is_some a.docket_id || is_some a.party_id)
        || (is_some a.docket_id && is_some a.party_id))
      ≡ false)
    × ((str_eq a.channel "email" || str_eq a.channel "webhook") ≡ true)

module _ (token_hash : String → String) where
  stays : (h : String) → Kept token_hash (λ s. is_suppressed h s ≡ true)
  stays h = record {
    put = λ k s p. p;
    drop = λ q s p. p;
    refresh = λ t c n s p. p;
    anew = λ t a s p. p;
    activate = λ t n s p. p;
    delete = λ q s p. p;
    forget = λ g s p. p;
    silence = λ x s p.
        any-append (λ (y : Suppression). str_eq y.email_hash h) s.email_suppression (x ∷ [])
        ∙ rw p refl;
    observe = λ n s p. p;
    build = λ cadence channel matched s p. p;
  }

  suppress-suppressed :
      (t : ℕ) (h enc reason : String) (s : Follows)
      → is_suppressed h (suppress t h enc reason s) ≡ true
  unfolding suppress
  suppress-suppressed t h enc reason s = elim (Bool-cases (is_suppressed h s)) [
    | inl silent ↦ rw silent silent
    | inr mailable ↦
        let same : str_eq h h ≡ true = (eq_iff h h).1 refl in
        rw mailable (
          any-append (λ (y : Suppression). str_eq y.email_hash h) s.email_suppression
            (record { email_hash = h; email_enc = enc; reason = reason; created_at = t } ∷ [])
          ∙ rw (mailable, same) refl)
  ]

  -- Whatever calls come between, a recipient that was suppressed is not mailed for a subscription that
  -- it asks for in the right form: no token is answered and the store stays as it is.
  pub suppress-subscribe :
      (t u : ℕ) (enc reason fresh : String) (a : Ask) (cs : List Call) (s : Follows)
      → IsAsk a
      → subscribe token_hash u fresh a
          (perform_all token_hash cs (suppress t a.email_hash enc reason s))
        ≡ some (none, perform_all token_hash cs (suppress t a.email_hash enc reason s))
  unfolding subscribe
  suppress-subscribe t u enc reason fresh a cs s ask =
      let silent =
        perform_all-keeps token_hash (λ s. is_suppressed a.email_hash s ≡ true) (stays a.email_hash)
          cs (suppress t a.email_hash enc reason s)
          (suppress-suppressed t a.email_hash enc reason s) in
      rw (ask.0, ask.1, silent) refl
