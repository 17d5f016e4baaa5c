-- ===== src/Testutil/Resolvers/Replay.antt =====
-- internal/testutil/tokens.go: the fake cache keeps the laws of a replay cache.
use signet_ps.Base.{
  if◌then◌else◌, insert, lookup-insert, Text, text_eq, text_eq_refl, ◌≡◌, refl, true, arith,
}
use signet_ps.Tokens.Verify.Replay.{IsReplayCache}
use signet_ps.Testutil.Resolvers.{FakeReplay, is_seen, fake_seen_jti}

abbrev pub HasSeen : FakeReplay → Text → Type 0
HasSeen f jti = is_seen f jti ≡ true

seen-insert :
    (f : FakeReplay) (jti old : Text)
    → is_seen (insert jti true f) old ≡ (if text_eq jti old then true else is_seen f old)
unfolding is_seen
seen-insert f jti old = ground (arith, lookup-insert jti old true f)

pub fake_seen_jti-IsReplayCache : IsReplayCache HasSeen fake_seen_jti
unfolding fake_seen_jti
fake_seen_jti-IsReplayCache = record {
  refuses = λ f jti exp h. rw h refl;
  records = λ f jti exp. ground (arith, seen-insert f jti jti, text_eq_refl jti);
  keeps = λ f jti old exp h. ground (arith, seen-insert f jti old, h);
}
