-- ===== src/Runtime/Pause.antt =====
-- crates/nyarix-runtime/src/pause.rs. The `watch` channel between the handles and the watchers is the
-- parameter `Watch`.
use nyarix_runtime.Base.{◌≡◌, refl, Bool, true, false, not, if◌then◌else◌}

-- What `tokio::sync::watch` documents: a watcher sees the value sent last; once every sender is
-- dropped the channel is closed, and keeps its value.
pub record Watch (W : Type 0) : Type 0 where
  pub channel : Bool → W
  pub send : W → Bool → W
  pub borrow : W → Bool
  pub drop_senders : W → W
  pub is_open : W → Bool
  pub channel_new : (b : Bool) → (borrow (channel b) ≡ b) × (is_open (channel b) ≡ true)
  pub send_seen : (w : W) (b : Bool) → (borrow (send w b) ≡ b) × (is_open (send w b) ≡ is_open w)
  pub dropped : (w : W) → (borrow (drop_senders w) ≡ borrow w) × (is_open (drop_senders w) ≡ false)

-- The parameter can be met.
pub record Flag : Type 0 where
  pub value : Bool
  pub is_open : Bool

abbrev pub flags : Watch Flag
flags = record {
  channel = λ b. record { value = b; is_open = true };
  send = λ w b. record w { value = b };
  borrow = λ w. w.value;
  drop_senders = λ w. record w { is_open = false };
  is_open = λ w. w.is_open;
  channel_new = λ b. (refl, refl);
  send_seen = λ w b. (refl, refl);
  dropped = λ w. (refl, refl);
}

module _ {W : Type 0} (watch : Watch W) where
  -- `GraphPauseHandle::new`.
  unfoldable pub handle : W
  handle = watch.channel false

  unfoldable pub pause : W → W
  pause w = watch.send w true

  unfoldable pub resume : W → W
  resume w = watch.send w false

  unfoldable pub is_paused : W → Bool
  is_paused w = watch.borrow w

  -- Whether the future of `wait_until_resumed` is ready: `changed` fails once every handle is dropped.
  unfoldable pub wait_until_resumed : W → Bool
  wait_until_resumed w = if watch.borrow w then not (watch.is_open w) else true

  -- Whether the future of `wait_until_paused` is ready. On a closed channel that is not paused it
  -- never is.
  unfoldable pub wait_until_paused : W → Bool
  wait_until_paused w = watch.borrow w
