-- ===== src/Lib.antt =====
-- Config Guard watches configuration directories with fanotify. Guard mode holds an open until the
-- policy, an earlier answer or the user decides; the audit modes only observe, and learn which
-- program uses which directory.
--
-- Parts. Policy models src/policy.rs: Types its records, Subject the names and rules that match a
-- subject, Decide `Policy::decide` and what it calls, Defaults the configuration without a policy
-- file. Process models src/process.rs: Identity is `ProcessIdentity`, Stat and Environ the parsers
-- of the files of procfs, Procfs the readers, with the walk over the ancestors. Prompt models
-- src/prompt.rs: Types the requests and answers, Ancestry the authorizations that an owner's
-- ancestor carries, Adapters the prompts that the program has, Texts what the user is shown, Authd
-- a call of authd and the prompt command. Learning models src/learning.rs, its children Symlinks
-- the search for symbolic links and Output what is written. Reconcile models src/reconcile.rs: the
-- plan for the entries of a directory, with the rules it appends and the entries it moves as a list
-- of changes; its child Directory has the options, the sorted entries and the text of an appended
-- rule, Files the calls on files behind the changes.
--
-- Fanotify models src/fanotify.rs and src/fanotify/. Events has the masks and the answers to the
-- kernel; Watch is watch.rs; PromptResolution is prompt_resolution.rs, with the keys of answers in
-- its child Key; AuditIdentity and AuditProcess are the two caches of audit_identity.rs and
-- audit_process.rs; Audit is audit.rs, its child Handler is the handler of an audited event in
-- fanotify.rs, and its child Run the loop over the reads; EventBuffer cuts the buffer of the kernel
-- into events, as fanotify.rs and event.rs do; Guard is guard.rs: Types its records, Coordinator
-- the operations of `PromptCoordinator`, Loop the handling of one event, Poll the event loop,
-- Worker the thread that puts the questions. Startup is what `run` of fanotify.rs does before the
-- loops.
--
-- Cli models src/main.rs: Settings the policy file and the values of options, Scope the watched
-- paths and the policy behind path aliases, Launch what the loops are started with, Plan the
-- reconcile command, Commands the choice of a command. SystemdNotify models src/systemd_notify.rs.
-- The other children of these modules hold proofs, named for what they prove, and runs in the files
-- called Tests. Base holds tests, equality interfaces and lists over native numbers, Std the text,
-- number, path and map operations of Rust's standard library that the code uses.
--
-- How the parts interact. The command line makes the scope, the policy and the prompt, and starts a
-- loop with them. The guard loop asks the policy of an event, then the cache of answers; a question
-- that stays open goes to the coordinator, which sends a job to the worker and keeps the event
-- until the completion comes back. The audit loop cuts what it reads into events; its handler feeds
-- the two caches of processes, asks the policy, and passes what it sees to the learner. Both take
-- processes as Process finds them.
--
-- State and effects. A function that changes `self` takes the record and gives back the new one.
-- Calls of the kernel are a list of effects in their order, and whether the kernel carries one out
-- is an argument (`Io`, and `Kernel` for marks), so the theorems hold whatever it does. What the
-- clock, the file system, the sockets and the user answer are arguments too. In the loops these
-- answers come with each turn: in the guard loop with each event, in the audit loop with each read,
-- and there what procfs, the policy and the user say may depend on all that went before. The
-- handlers take what procfs says of a process as an argument; the readers of Process take the files
-- of procfs as one that does not change during a call. An `Err` is a value of `Status` or `none`; a
-- panic is `none` where the code has an `unreachable!`, and ends the loop of the audit. Log lines
-- are left out. A `HashMap` is an association list, and the theorems range over every order of it;
-- the ordered maps of learning.rs are such lists too, and only what they hold is stated. A path is
-- its bytes, compared by components. Where the code displays a path as text the bytes stand for it,
-- which is exact for a path in UTF-8.
--
-- Bounds and fuel. Process ids, descriptors and counters are natural numbers. The number of a
-- prompt is 64 bits wide and its overflow is the error of the source. A descriptor of an event may
-- be negative. The recursion of `subject_matches` runs on the length of the rule and one more; the
-- loops of EventBuffer run on the number of bytes left. The loop over the stack of directories runs
-- on fuel, and one more than the directories of a finite tree is enough. All of these are proved.
-- The walk over ancestors has the 32 rounds of the source. The buffer's numbers are stored low byte
-- first.
--
-- Not modelled. The parsing of arguments and of the policy file, the encoding of authd's messages
-- and of what is learned, which are those of other libraries; the creation of threads, `poll` and
-- the wake socket, of which the loops take what they report; the text of log lines and of messages
-- on the command line.
pub mod Base
pub mod Std
pub mod Policy
pub mod Process
pub mod Prompt
pub mod Fanotify
pub mod Learning
pub mod Reconcile
pub mod Cli
pub mod SystemdNotify
