-- ===== src/Network/Start/Closing.antt =====
-- Closing a node more than once.
use p2pos.Common.{[], ◌+◌, ◌∷◌, ◌≡◌, if◌then◌else◌, Bool, List, All, refl, false, true}
use p2pos.Network.Start.{close, Ending}

-- Calls of Close, one after the other, with what Host.Close would return: the node, and the results.
unfoldable pub close_all : List Bool → Ending → Ending × List Bool
close_all [] n = (n, [])
close_all (fails ∷ rest) n =
    let (next, result) = close fails n in
    let (last, results) = close_all rest next in (last, result ∷ results)

close_all-closed :
    (calls : List Bool) (n : Ending)
    → n.close_once ≡ true
    → ((close_all calls n).0 ≡ n) × All (λ r. r ≡ n.close_err) (close_all calls n).1
unfolding close_all close
close_all-closed [] n h = (refl, tt)
close_all-closed (fails ∷ rest) n h =
    simp (close_all, close, h)
      ((close_all-closed rest n h).0, (refl, (close_all-closed rest n h).1))

-- However often Close is called on a node, the host is closed once and the manager of AutoTLS is
-- stopped once, if there is one, and every call returns what closing the host returned.
pub close_all-once :
    (fails : Bool) (calls : List Bool) (n : Ending)
    → n.close_once ≡ false
    → let closed = close_all (fails ∷ calls) n in
      (closed.0.host_closes ≡ n.host_closes + 1)
      × (closed.0.stops ≡ (if n.has_auto_tls then n.stops + 1 else n.stops))
      × All (λ r. r ≡ fails) closed.1
unfolding close_all close
close_all-once fails calls n h =
    let made = record n {
      close_once = true;
      close_err = fails;
      stops = if n.has_auto_tls then n.stops + 1 else n.stops;
      host_closes = n.host_closes + 1;
    } in
    let (same_node, same_results) = close_all-closed calls made refl in
    simp (close_all, close, h, same_node) (refl, refl, (refl, same_results))
