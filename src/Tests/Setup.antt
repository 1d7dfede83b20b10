-- ===== src/Tests/Setup.antt =====
-- A platform that is lawful: the text of an instant is a mark and one more letter for each microsecond.
use Prim.Native.String.{count}
use text.Mathlib.TextLemmas.{length-append}
use hermes_enterprise_deploy.Base.{
  ℕ, zero, suc, ◌-◌, String, ◌<>◌, Option, none, some, ◌≡◌, ◌≢◌, refl, ap, arith, ◌==◌, string_eq,
  if◌then◌else◌, false,
}
use hermes_enterprise_deploy.ActionStore.Valid.{ne-beq}
use hermes_enterprise_deploy.Platform.{Platform, IsLawful, Datetime, naive, aware}

unfoldable pub letters : ℕ → String
letters zero = "t"
letters (suc n) = "t" <> letters n

abbrev pub demo_isoformat : Datetime → String
demo_isoformat (naive t) = letters t
demo_isoformat (aware t) = letters t

abbrev pub demo_fromisoformat : String → Option Datetime
demo_fromisoformat s = if s == "" then none else some (aware (count s - 1))

abbrev pub demo : Platform
demo = record {
  isoformat = demo_isoformat;
  fromisoformat = demo_fromisoformat;
  sha256_hex = λ s. "h" <> s;
  dumps = λ fields. "{}";
  sort_keys = λ d. d;
  strip = λ s. s;
  lower = λ s. if s == "Bearer" then "bearer" else s;
}

count-letters : (n : ℕ) → count (letters n) ≡ suc n
unfolding letters
count-letters zero = refl
count-letters (suc n) = omega (arith, length-append "t" (letters n), count-letters n)

letters_ne : (n : ℕ) → (letters n == "") ≡ false
letters_ne n = ne-beq (letters n) (λ e. omega (arith, ap count e, count-letters n))

suc_minus : (t : ℕ) → suc t - 1 ≡ t
suc_minus t = omega arith

hash_ne : (s : String) → "h" <> s ≢ ""
hash_ne s e = omega (arith, ap count e, length-append "h" s)

pub demo-IsLawful : IsLawful demo
demo-IsLawful = record {
  fromisoformat-isoformat = λ t. rw (letters_ne t, count-letters t, suc_minus t);
  fromisoformat-empty = refl;
  sha256_hex-ne = hash_ne;
  lookup-sort_keys = λ d k h. refl;
  NodupKeys-sort_keys = λ d h. h;
}
