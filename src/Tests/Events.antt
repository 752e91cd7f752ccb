-- ===== src/Tests/Events.antt =====
-- The theorems on events and waves, applied to the sample.
use dimmon.Prelude.{◌+◌, ◌≤◌, ◌<◌, ◌≡◌, true, false, count, unlink, arith}
use dimmon.State.{Addr}
use dimmon.State.Returns.{Returns}
use dimmon.Node.{node_unref}
use dimmon.Node.Refs.{node_unref-lifetime, dtor_calls}
use dimmon.Event.{
  event_subscribe, event_unsubscribe, event_unsubscribeall, node_unsubscribeallevents,
}
use dimmon.Event.Refs.{MayRelease}
use dimmon.Event.Subscriptions.{Inv, queued, is_pair}
use dimmon.Event.Subscribe.{subscribe-Inv, Outcome}
use dimmon.Event.Unsubscribe.{unsubscribe-Inv}
use dimmon.Event.All.{Cleared, unsubscribeall-Cleared}
use dimmon.Event.All.Quiet.{Quiet}
use dimmon.Event.All.Node.{node_unsubscribeallevents-Quiet}
use dimmon.Wave.{wavefinish_subscribe, first_of_wave}
use dimmon.Wave.Join.{Joined, wavefinish_subscribe-Joined}
use dimmon.Tests.Sample.{sample, sample-Inv, sample-CanDestroy}

-- The node at 9 holds its last reference.
node_unref-lifetime_example : Returns (node_unref 9 sample) (λ _ t.
    ((sample.node 9).nd_refs ≡ 1
      → (t.nodelist ≡ unlink 9 sample.nodelist)
        × (t.calls ≡ dtor_calls 9 sample)
        × ((t.node 9).live ≡ false)
        × ((t.node 9).nd_invalid ≡ true))
    × (1 < (sample.node 9).nd_refs
        → (t.nodelist ≡ sample.nodelist) × (t.calls ≡ sample.calls) × ((t.node 9).live ≡ true)))
node_unref-lifetime_example = node_unref-lifetime 9 sample (ground arith) (ground arith)

subscribe-Inv_example :
    Returns (event_subscribe 4 3 sample) (λ err t. Inv t × Outcome 4 3 sample err t)
subscribe-Inv_example = subscribe-Inv 4 3 sample (ground arith) sample-Inv

subscribed_once : 1 ≤ queued sample 4 2
unfolding count
subscribed_once = ground arith

may_release : MayRelease 4 sample
may_release = record { has_destructor = λ h. ground arith; epoll_answer = λ h k. ground arith }

unsubscribe-Inv_example : Returns (event_unsubscribe 4 2 sample) (λ err t.
    (err ≡ 0) × Inv t × ((a b : Addr) → queued t a b + is_pair 4 2 a b ≡ queued sample a b))
unsubscribe-Inv_example = unsubscribe-Inv 4 2 sample sample-Inv subscribed_once may_release

unsubscribeall-Cleared_example : Returns (event_unsubscribeall 4 sample) (λ _ t. Cleared 4 sample t)
unsubscribeall-Cleared_example =
    unsubscribeall-Cleared 4 sample sample-Inv (ground arith) (ground arith)

node_unsubscribeallevents-Quiet_example :
    Returns
      (node_unsubscribeallevents 3 sample)
      (λ _ t. Quiet 3 sample t × ((e : Addr) → queued t e 3 ≡ 0))
node_unsubscribeallevents-Quiet_example =
    node_unsubscribeallevents-Quiet 3 sample sample-Inv sample-CanDestroy (ground arith)
      (ground arith)

current : first_of_wave sample.wf_waveid sample.dmm_wave_id sample.wavefinishlist ≡ 7
unfolding first_of_wave
current = ground arith

-- The node at 3 has already subscribed.
wavefinish_subscribe-Joined_example :
    Returns (wavefinish_subscribe 3 sample) (λ err t. Inv t × Joined 7 3 sample err t)
wavefinish_subscribe-Joined_example =
    wavefinish_subscribe-Joined 7 3 sample sample-Inv (ground arith) current (ground arith)
      (ground arith) (ground arith) (ground arith) (ground arith)
