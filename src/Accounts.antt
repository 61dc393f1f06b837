-- ===== src/Accounts.antt =====
-- What people hold: src/docketyard/citator/signin.py, a reviewer's sign-in, and
-- src/docketyard/alerts/subscriptions.py, what an address follows.
pub mod SignIn
pub mod Follows
pub mod Subscriptions
