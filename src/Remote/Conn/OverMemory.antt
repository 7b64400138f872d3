-- ===== src/Remote/Conn/OverMemory.antt =====
-- A connection over the in-process host: memory.Host as the host that a connection serves.
use execenv.Base.{ℕ, ◌≡◌, Bool, true, not, Bytes, arith, nat_eq, nat_beq_iff, Option-cases}
use execenv.Errors.{ok}
use execenv.Memory.State.{World, set_term, term_at, obs_at, env_at}
use execenv.Memory.Terminal
use execenv.Memory.Observe.{fail_obs}
use execenv.Memory.Env
use execenv.Memory.Host
use execenv.Remote.Conn.{InnerHost}
use execenv.Remote.Conn.Closing.{ClosesWell}

-- The generation's epoch is drawn at random by the watch log; here it is given.
abbrev pub memory_host : Bytes → InnerHost World
memory_host epoch = record {
  ready = Host.ready;
  ensure = λ w ctx spec. Host.ensure w ctx spec epoch;
  revoke = Host.revoke;
  attach = Env.attach;
  freeze = Env.freeze;
  thaw = Env.thaw;
  replace_tree = λ w ctx r tree. Env.replace_tree w ctx r tree epoch;
  apply = Env.apply_batch;
  watch = Env.watch;
  open_file = λ w ctx r path. (Env.open_file w ctx r path).0;
  write = λ w t p. set_term w t (Terminal.write (term_at w t) p).1;
  resize = λ w ctx t win. (
    (Terminal.resize (term_at w t) ctx win).0,
    set_term w t (Terminal.resize (term_at w t) ctx win).1,
  );
  close_term = λ w t. (ok tt, set_term w t (Terminal.close (term_at w t)));
  close_obs = λ w o. (ok tt, Env.close_observation o w);
  cursor = λ w o. (obs_at w o).cursor;
}

-- An observation is closed once its environment no longer holds it.
abbrev pub is_let_go : World → ℕ → Bool
is_let_go w o = not (Env.is_current o (env_at w (obs_at w o).env).obs)

close_observation-terms :
    (w : World) (o t : ℕ) → (term_at (Env.close_observation o w) t).closed ≡ (term_at w t).closed
unfolding Env.close_observation Env.fail_watch
close_observation-terms w o t = ground (arith, Option-cases (env_at w (obs_at w o).env).obs)

close_observation-let_go : (w : World) (o : ℕ) → is_let_go (Env.close_observation o w) o ≡ true
unfolding Env.close_observation Env.fail_watch fail_obs
close_observation-let_go w o = ground (
  arith,
  Option-cases (env_at w (obs_at w o).env).obs,
  nat_beq_iff o o,
  nat_beq_iff (obs_at w o).env (obs_at w o).env,
)

close_observation-stays :
    (w : World) (o p : ℕ) → is_let_go w o ≡ true → is_let_go (Env.close_observation p w) o ≡ true
unfolding Env.close_observation Env.fail_watch fail_obs
close_observation-stays w o p e = ground (
  arith,
  Option-cases (env_at w (obs_at w p).env).obs,
  nat_beq_iff o p,
  nat_beq_iff (obs_at w o).env (obs_at w p).env,
  e,
)

-- The in-process host's Close methods end what they are called on for good.
pub memory_host-ClosesWell :
    (epoch : Bytes) → ClosesWell (memory_host epoch) (λ w t. (term_at w t).closed) is_let_go
unfolding Terminal.close
memory_host-ClosesWell epoch = record {
  closes_term = λ w t. ground (arith, nat_beq_iff t t);
  closes_obs = close_observation-let_go;
  term_stays = λ w t u e. ground (arith, nat_beq_iff t u, e);
  term_stays_obs = λ w t o e. ground (arith, close_observation-terms w o t, e);
  obs_stays = close_observation-stays;
}
