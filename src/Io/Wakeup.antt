-- ===== src/Io/Wakeup.antt =====
-- A round of the loop of src/context.cpp around a batch of completions: the coroutines that waited for
-- them are resumed.
use tiny_coro_lab.Context.{Context}
