-- ===== src/Lib.antt =====
-- Verification of luncur, a small platform that builds and deploys apps on Kubernetes.
--
-- The parts, and how they interact. A deploy is a row of the deployments table. It is applied to
-- the cluster and handed to the rollout gate, a loop that samples the Deployment until its new pods
-- serve, fail or run out of time. A canary or blue-green deploy first starts a second track of pods;
-- once the gate finds it ready, the canary loop shifts traffic to it in steps, probes it, and then
-- aborts or promotes, which hands the app's own Deployment back to the gate. Both loops share the
-- rollouts table with the handlers that record promote and abort requests. A failed deploy may
-- start a rollback, itself a deploy. Pipelines are compiled from YAML into a sorted list of steps.
--
-- Common: names that all parts share, lists under native indices, Go strings as lists of bytes,
-- maps as functions, signed integers.
--
-- Pipeline: internal/pipeline/compile.go. Pipeline/Step has the types, Pipeline/Rules the checks
-- of one step, Pipeline/Graph findCycle, transitiveNeeds and topoSort, Pipeline/Compile the function
-- Compile. yaml.Unmarshal is an argument. A Go map that is iterated is an association list. The
-- recursions carry fuel, one more than the number of steps, which bounds both the depth of the
-- searches and the length of the sort; running out is a result of its own. Pipeline/Tick is
-- decidePipelineRun of internal/server/pipelines.go with Downstream, the decision of one tick of a
-- run; Pipeline/Ticking holds the theorem on it. Its search for dependents marks a step before it
-- goes down, so fuel for each step and one more bounds its depth; Pipeline/Searching counts the
-- steps that are not marked; Pipeline/Dependents and Downstream are on what the search finds.
-- Pipeline/Artifacts is ArtifactEnv; Pipeline/Outputs holds the theorem on it.
--
-- Canary: Canary/Rollouts is internal/store/rollouts.go; Canary/Deployments is the part of
-- internal/store/deployments.go and internal/store/policies.go that a deploy uses; Canary/Sizes has
-- deployStrategy, canaryReplicas, canarySteps and canaryHold of internal/server/canary.go;
-- Canary/Handlers has markDeployLive, afterApply, startCanary, applyAndGate, rollback and
-- failDeploy; Canary/Gate has gateDone, gateFailed and the loop of watchRollout
-- (internal/server/rolloutgate.go); Canary/Stepping has the loop of runCanary and requestRollout.
-- Canary/World is the state: the tables, the goroutine that drives each deploy, and the calls made
-- to the cluster. One round of a loop is one function, so no fuel is needed; what the cluster, the
-- registry, the clock and a concurrent request answer during a round is a record of answers. Calls
-- of the store succeed, except GetAppByID in failDeploy, whose result is an answer; the transcript,
-- the audit rows and the rendering of manifests are left out. ListDeployments returns the newest 50
-- rows. A quotient that does not fit an int32 is converted by a function among the answers.
-- Canary/Views has the views of a rollout. Canary/Phases, Aborting, Requests, Turns, Promotion,
-- Gating, Sizing and RollingBack hold the theorems on them.
--
-- Kube: Kube/Judge and Kube/Status are internal/kube/rollout.go, Kube/Drain is
-- internal/kube/drain.go. The cluster's objects are records of the fields that are read. A drain
-- takes a list of what is answered to one pass after another, and gives no result where the list
-- ends first. Times are in seconds, replica counts are natural numbers. Kube/Signals says what each
-- verdict means; Verdicts, Newest, Evictions and Draining hold the theorems.
--
-- Cron: internal/cronexpr/cronexpr.go. Cron/Expr has Parse and Matches; a set of ints is the list of
-- what was put into it. The loop that fills a set is recursion on fuel, one round for each value of
-- a field and for a step that wraps around; running out is an error of its own. Cron/Fill, Wrap and
-- Printed hold the theorems.
--
-- Policy: internal/store/policies.go. Policy/Steps has ParseCanarySteps and FormatCanarySteps,
-- Policy/Stored has Validate, the table app_policies and policyPatch of internal/server/policy.go.
-- The table is a function from the app's id, and its statements succeed. Common/Split and
-- Common/Decimal are the functions of Go's strings and strconv that these parts call, as documented;
-- white space is Unicode's, read off the bytes of its UTF-8 form.
--
-- Monitor: internal/server/monitor.go. Monitor/Ring has the ring of 120 samples, Monitor/Recorder the
-- recording of a tick into the rings of apps and nodes, Monitor/Crash crashLoopCheck. The number of
-- samples in a ring is not bounded in the model; an int would overflow after 2^63 of them, 15
-- seconds apart. Monitor/Recent, Charts and Alerts hold the theorems.
--
-- Limiter: internal/server/ratelimit.go; Limiter/Window has allow, with the clock's answer as an
-- argument; Limiter/Burst and Later hold the theorems. Its lock makes calls one after another.
--
-- Dotenv: internal/server/dotenv.go; Dotenv/Parse has parseDotenv.
--
-- Sweep: Sweep/Params and Expand are internal/sweep/params.go behind the YAML parser, with float64 as
-- a type with the operations that are used; Sweep/Decide is decideSweep and medianOf of
-- internal/server/sweeps.go. The odometer of expandGrid is recursion over the counters from the last
-- one; its product wraps around at 2^64. A metric's order, its NaN and its average are parameters,
-- with what float64 comparisons promise as a hypothesis; sort.Float64s puts NaN first. Product,
-- Odometer, Total, Grid, Parsed, Median, Finished, Lowest, Launching and Deciding hold the theorems.
--
-- Uptime: Uptime/Stored is the part of internal/store/uptime.go that one app uses, Uptime/Probe is
-- recordUptime with uptimeDown and uptimeRecovered of internal/server/uptime.go; Uptime/Outages holds
-- the theorem. Statements of the store succeed, and nobody resolves the prober's incidents by hand.
--
-- Preview: sanitizeBranch of internal/server/preview.go and validName of internal/store/projects.go,
-- in Preview/Branch; Preview/Naming holds the theorem. The loop that collapses dashes has fuel for
-- each character and one more: a pass makes the text shorter.
--
-- Not modelled: the HTTP handlers and pages, the SQL of the rest of the store, the rendering of
-- manifests, builds, the registry, the command line, and the clients of outside services, which are
-- glue around third-party code; the engine that applies a tick's actions, the loop that applies a sweep's actions, and the statistics of uptime checks.
pub mod Canary
pub mod Common
pub mod Cron
pub mod Dotenv
pub mod Kube
pub mod Limiter
pub mod Monitor
pub mod Pipeline
pub mod Policy
pub mod Preview
pub mod Sweep
pub mod Uptime
