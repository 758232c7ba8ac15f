-- ===== src/App/Callbacks/Latest.antt =====
-- Which requests reach the callback.
use usbip_go.Prelude.{
  ◌≡◌, refl, sym, Bool, true, false, Option, none, some, List, [], ◌∷◌, subst, ap, ◌∙◌,
}
use usbip_go.App.Callbacks.{
  CallbackRequest, Runner, new_runner, Turn, receives, returns, receive, turn, work, send_by,
  discard, after_send, notify, Happening, notifies, works, happen, play, flush, close,
}

-- The requests of a history, the latest first.
abbrev pub notified : List Happening → List CallbackRequest
notified [] = []
notified (notifies first second request ∷ history) = request ∷ notified history
notified (works turns ∷ history) = notified history

-- The first list is the second without some of its elements, in the same order.
pub data IsPart : List CallbackRequest → List CallbackRequest → Type 0 where
  empty : IsPart [] []
  keeps : (r : CallbackRequest) (a b : List CallbackRequest) → IsPart a b → IsPart (r ∷ a) (r ∷ b)
  skips : (r : CallbackRequest) (a b : List CallbackRequest) → IsPart a b → IsPart a (r ∷ b)

tail-IsPart : {r : CallbackRequest} {a b : List CallbackRequest} → IsPart (r ∷ a) b → IsPart a b
tail-IsPart (keeps r a b p) = skips r a b p
tail-IsPart (skips r a b p) = skips r _ b (tail-IsPart p)

flush-IsPart :
    (o : Option CallbackRequest) (a b : List CallbackRequest) → IsPart (flush o a) b → IsPart a b
flush-IsPart none a b p = p
flush-IsPart (some r) a b p = tail-IsPart p

-- The worker's turns keep what reaches the callback at last.
receive-close :
    (o : Option CallbackRequest) (busy : Bool) (s : Runner)
    → s.queued ≡ o
    → close (receive o busy s) ≡ close s
unfolding close
receive-close none busy s q = refl
receive-close (some r) true s q = refl
receive-close (some r) false s q = ap (λ o. flush o s.invoked) (sym q)

turn-close : (t : Turn) (s : Runner) → close (turn t s) ≡ close s
unfolding turn close
turn-close receives s = receive-close s.queued s.is_busy s refl
turn-close returns s = refl

work-close : (turns : List Turn) (s : Runner) → close (work turns s) ≡ close s
unfolding work
work-close [] s = refl
work-close (t ∷ turns) s = work-close turns (turn t s) ∙ turn-close t s

receive-empty :
    (o : Option CallbackRequest) (busy : Bool) (s : Runner)
    → s.queued ≡ none
    → (receive o busy s).queued ≡ none
receive-empty none busy s q = q
receive-empty (some r) true s q = q
receive-empty (some r) false s q = refl

work-empty : (turns : List Turn) (s : Runner) → s.queued ≡ none → (work turns s).queued ≡ none
unfolding work turn
work-empty [] s q = q
work-empty (receives ∷ turns) s q = work-empty turns _ (receive-empty s.queued s.is_busy s q)
work-empty (returns ∷ turns) s q = work-empty turns _ q

-- A request that is queued behind what was called.
abbrev pub IsQueuedOn : CallbackRequest → List CallbackRequest → Runner → Type 0
IsQueuedOn request notified_before s = (s.queued ≡ some request) × IsPart s.invoked notified_before

send-IsQueuedOn :
    (o : Option CallbackRequest) (request : CallbackRequest) (s : Runner) (n : List CallbackRequest)
    → o ≡ none
    → IsPart s.invoked n
    → IsQueuedOn request n (send_by o request s).0
send-IsQueuedOn none request s n q p = (refl, p)
send-IsQueuedOn (some r) request s n q p = cc

close-empty : (s : Runner) → s.queued ≡ none → close s ≡ s.invoked
unfolding close
close-empty s q = ap (λ o. flush o s.invoked) q

-- Behind the discarded request the worker has nothing to receive.
work-discarded : (turns : List Turn) (s : Runner) → (work turns (discard s)).invoked ≡ s.invoked
work-discarded turns s =
    sym (close-empty (work turns (discard s)) (work-empty turns (discard s) refl))
    ∙ (work-close turns (discard s) ∙ close-empty (discard s) refl)

close-IsPart : (s : Runner) (n : List CallbackRequest) → IsPart (close s) n → IsPart s.invoked n
unfolding close
close-IsPart s n p = flush-IsPart s.queued s.invoked n p

send_by-IsQueuedOn :
    (first second : List Turn) (o : Option CallbackRequest) (request : CallbackRequest) (s : Runner)
    (n : List CallbackRequest)
    → IsPart (close s) n
    → IsQueuedOn request n (after_send first second request (send_by o request s))
send_by-IsQueuedOn first second none request s n p = (refl, close-IsPart s n p)
send_by-IsQueuedOn first second (some r) request s n p =
    let s1 = work first s in
    let q = close-IsPart s1 n (subst (λ l. IsPart l n) (sym (work-close first s)) p) in
    let s2 = work second (discard s1) in
    send-IsQueuedOn s2.queued request s2 n (work-empty second (discard s1) refl)
      (subst (λ l. IsPart l n) (sym (work-discarded second s1)) q)

notify-IsQueuedOn :
    (first second : List Turn) (request : CallbackRequest) (s : Runner) (n : List CallbackRequest)
    → IsPart (close s) n
    → IsQueuedOn request n (notify first second request s)
unfolding notify
notify-IsQueuedOn first second request s n p =
    send_by-IsQueuedOn first second s.queued request s n p

-- The last request of a history is the first that reaches the callback, counted from the end.
abbrev pub IsLatest : List CallbackRequest → List CallbackRequest → Type 0
IsLatest called [] = called ≡ []
IsLatest called (r ∷ n) = (rest : List CallbackRequest) × ((called ≡ r ∷ rest) × IsPart rest n)

latest-IsPart : (called n : List CallbackRequest) → IsLatest called n → IsPart called n
latest-IsPart called [] q = subst (λ l. IsPart l []) (sym q) empty
latest-IsPart called (r ∷ n) (rest, (q, p)) =
    subst (λ l. IsPart l (r ∷ n)) (sym q) (keeps r rest n p)

queued-IsLatest :
    (request : CallbackRequest) (n : List CallbackRequest) (s : Runner)
    → IsQueuedOn request n s
    → IsLatest (close s) (request ∷ n)
unfolding close
queued-IsLatest request n s (q, p) = (s.invoked, (ap (λ o. flush o s.invoked) q, p))

-- However slow the callback is and wherever the worker takes its turns, the callback is called for
-- notified requests only, each at most once and in their order, and at last for the latest request:
-- requests in between may be left out, the latest never.
pub play-IsLatest : (history : List Happening) → IsLatest (close (play history)) (notified history)
unfolding play happen
play-IsLatest [] = close-empty new_runner refl
play-IsLatest (notifies first second request ∷ history) =
    queued-IsLatest request (notified history) (notify first second request (play history)) (
      notify-IsQueuedOn first second request (play history) (notified history)
        (latest-IsPart (close (play history)) (notified history) (play-IsLatest history)))
play-IsLatest (works turns ∷ history) =
    subst (λ l. IsLatest l (notified history)) (sym (work-close turns (play history)))
      (play-IsLatest history)
