-- ===== src/Tests/Memory.antt =====
-- A storage in memory, with which the theorems about a storage that does not fail are tried.
use orchy.Base.{
  ℤ, int_eq, Text, text_eq, Bool, true, ◌&&◌, Option, none, some, List, [], contains, refl,
  if◌then◌else◌, pure,
}
use orchy.Model.{ok, storage_layer, FlowContext, ActionExecutionRequest}
use orchy.Shard.Storage.{Storage}
use orchy.Shard.Storage.Reliable.{Reliable, same, targets, found}

-- The contexts, and the actions in the queues.
pub record Memory : Type 0 where
  pub contexts : Text → Text → Option FlowContext
  pub queue : Text → Text → ℤ → Bool

abbrev save : Text → Text → Option FlowContext → Memory → Memory
save wf id c s = record s {
  contexts = λ wf' id'. if same wf id wf' id' then c else s.contexts wf' id';
}

abbrev enqueue : Text → Text → List ActionExecutionRequest → Memory → Memory
enqueue wf id rs s = record s {
  queue = λ wf' id' a.
      if same wf id wf' id' && contains (targets rs) a then true else s.queue wf' id' a;
}

-- A poll of the actions returns the requests `polled`.
abbrev pub memory_with : List ActionExecutionRequest → Storage Memory
memory_with polled = record {
  save_flow_context = λ wf id c s. (ok tt, save wf id (some c) s);
  get_flow_context = λ wf id s. (found storage_layer (s.contexts wf id), s);
  delete_flow_context = λ wf id s. (ok tt, save wf id none s);
  save_flow_context_and_dispatch_action =
      λ wf id c rs s. (ok tt, enqueue wf id rs (save wf id (some c) s));
  poll_action = λ kind n. pure (ok polled);
  ack = λ kind rs s. (ok tt, s);
  retry = λ wf id name a d s. (ok tt, s);
  poll_retry = pure (ok []);
  delay = λ wf id name a d s. (ok tt, s);
  poll_delay = pure (ok []);
  timeout = λ wf id name a d s. (ok tt, s);
  poll_timeout = pure (ok []);
}

abbrev pub memory : Storage Memory
memory = memory_with []

abbrev pub reliable_memory_with :
    (polled : List ActionExecutionRequest) → Reliable (memory_with polled)
reliable_memory_with polled = record {
  view = λ s. s.contexts;
  pending = λ s. s.queue;
  missing = storage_layer;
  get_law = λ wf id s. refl;
  save_ok = λ wf id c s. refl;
  view-save = λ wf id wf' id' c s. refl;
  pending-save = λ wf id wf' id' a c s. refl;
  view-delete = λ wf id wf' id' s. refl;
  pending-delete = λ wf id wf' id' a s. refl;
  view-dispatch = λ wf id wf' id' c rs s. refl;
  pending-dispatch = λ wf id wf' id' a c rs s. refl;
  view-retry = λ wf id name a d s wf' id'. refl;
  view-delay = λ wf id name a d s wf' id'. refl;
}

abbrev pub reliable_memory : Reliable memory
reliable_memory = reliable_memory_with []
