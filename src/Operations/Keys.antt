-- ===== src/Operations/Keys.antt =====
-- kloset.go: when `openrepo` dereferences a nil encryption.
use plaklet.Job.Monad.{Job}
use plaklet.Operations.Env.{Env}
