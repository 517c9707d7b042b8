-- ===== src/Ai/Context.antt =====
-- The context window check of app/ai.py.
use job_squire.Base.{
  ℕ, zero, suc, ◌+◌, ◌-◌, ◌*◌, ◌/◌, ◌≤◌, ◌<◌, max, Bool, true, Option, none, some, ◌≡◌, arith, Text,
  length, leb,
}

abbrev pub chars_per_token_estimate : ℕ
chars_per_token_estimate = 4

abbrev pub context_safety_margin_tokens : ℕ
context_safety_margin_tokens = 256

unfoldable pub estimate_tokens : Text → ℕ
estimate_tokens text = max 1 (length text / chars_per_token_estimate)

pub record Fit : Type 0 where
  pub fits : Bool
  pub estimated : ℕ
  pub available : ℕ

-- The check against a window of `num_ctx` tokens.
unfoldable pub fits_window : ℕ → Text → Text → ℕ → Fit
unfolding estimate_tokens
fits_window num_ctx system user_content max_tokens =
    let estimated = estimate_tokens system + estimate_tokens user_content in
    let available = num_ctx - max_tokens - context_safety_margin_tokens in
    record { fits = leb estimated available; estimated = estimated; available = available }

-- `none` and 0 are the falsy values of `num_ctx`.
unfoldable pub fits_in_context : Option ℕ → Text → Text → ℕ → Fit
unfolding fits_window
fits_in_context none system user_content max_tokens = record {
  fits = true;
  estimated = 0;
  available = 0;
}
fits_in_context (some zero) system user_content max_tokens = record {
  fits = true;
  estimated = 0;
  available = 0;
}
fits_in_context (some (suc n)) system user_content max_tokens =
    fits_window (suc n) system user_content max_tokens

-- If a prompt passes the check of a window of n tokens, n > 0, then its characters and four for each
-- token of the answer and of the margin are at most 4 * n + 6 together, and the window has room for
-- the answer, the margin and two tokens more.
pub fits_in_context_bound :
    (n : ℕ) (system user : Text) (max_tokens : ℕ)
    → 0 < n
    → (fits_in_context (some n) system user max_tokens).fits ≡ true
    → (length system + length user + 4 * (max_tokens + 256) ≤ 4 * n + 6)
      × (max_tokens + 256 + 2 ≤ n)
unfolding fits_in_context
fits_in_context_bound zero system user m p h = absurd (omega arith)
fits_in_context_bound (suc n) system user m p h = ground arith

-- A shorter prompt, or a larger window, still fits.
fits_in_context_mono :
    (n k : ℕ) (system user system' user' : Text) (max_tokens : ℕ)
    → 0 < n
    → n ≤ k
    → length system' ≤ length system
    → length user' ≤ length user
    → (fits_in_context (some n) system user max_tokens).fits ≡ true
    → (fits_in_context (some k) system' user' max_tokens).fits ≡ true
unfolding fits_in_context
fits_in_context_mono zero k s u s' u' m p q a b h = absurd (omega arith)
fits_in_context_mono (suc n) zero s u s' u' m p q a b h = absurd (omega arith)
fits_in_context_mono (suc n) (suc k) s u s' u' m p q a b h = ground arith
