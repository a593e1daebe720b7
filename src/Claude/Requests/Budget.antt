-- ===== src/Claude/Requests/Budget.antt =====
-- How many calls of the API a request makes.
use signal_gateway.Common.{ℕ, suc}
use signal_gateway.Common.Text.{Text}
use signal_gateway.Claude.{World}

-- A world, with the number of calls of the API that a request can make.
abbrev pub counting {ℓ κ} : {W : Type ℓ} {E : Type κ} {V : Type 0} → World W E V → World (W × ℕ) E V
counting world = record {
  is_cancelled = λ (w, n). let (w', b) = world.is_cancelled w in ((w', n), b);
  send = λ r (w, n). let (w', reply) = world.send r w in ((w', n), reply);
  select_send = λ r (w, n). let (w', reply) = world.select_send r w in ((w', suc n), reply);
  has_executor = λ (w, n). let (w', b) = world.has_executor w in ((w', n), b);
  tools = λ (w, n). let (w', ts) = world.tools w in ((w', n), ts);
  execute = λ name input (w, n). let (w', r) = world.execute name input w in ((w', n), r);
  now = λ (w, n). let (w', t) = world.now w in ((w', n), t);
  elapsed = λ t (w, n). let (w', e) = world.elapsed t w in ((w', n), e);
}
