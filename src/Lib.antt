-- ===== src/Lib.antt =====
-- Ubuntu Pro for WSL: an agent on Windows (windows-agent) keeps the Ubuntu Pro and Landscape
-- configuration, and hands it to each WSL distro as tasks; a service in each distro
-- (wsl-pro-service) carries them out. This library models the agent's core and the service in the
-- distros, and proves what makes them correct. A model has the name of the code's type or function,
-- in snake case.
--
-- The parts, and the file that models each:
--   Task            windows-agent/internal/tasks and internal/distros/task/task.go: the two task
--                   types, and the comparator of the queues.
--   TaskYaml        windows-agent/internal/distros/task/yaml.go: the file format of the tasks.
--   TaskQueue       windows-agent/internal/distros/worker/task_queue.go: the queue of a worker.
--                   TaskQueue.Waiting interleaves Pull with the other methods.
--   TaskManager     windows-agent/internal/distros/worker/task_management.go: the two queues of a
--                   distro, and their file. TaskManager.Calls runs any sequence of calls that do not
--                   overlap, and TaskManager.Overlap calls that do.
--   Storage         the replacement of a file, which the task manager and the database share.
--   StateManager    windows-agent/internal/distros/distro/distro_state.go: the counter that keeps a
--                   distro awake.
--   Worker          windows-agent/internal/distros/worker/worker.go: the connection of a worker.
--   Distro          windows-agent/internal/distros/distro/distro.go and properties.go.
--   Processing      the task loop of worker.go, over the distro that owns the worker.
--   Database        windows-agent/internal/distros/database: the distros of the agent, and their file.
--   ConfigSource    windows-agent/internal/config/config_source.go.
--   ClientConfig    completeLandscapeConfig of windows-agent/internal/config/config.go.
--   Config          windows-agent/internal/config/config.go and config_marshal.go. Config.Registry
--                   takes in the data of the registry and the UID of the Landscape server.
--   RegistryWatcher windows-agent/internal/proservices/registrywatcher/watcher.go: what hands the data
--                   of the registry to the configuration.
--   Distribution    Distribute of windows-agent/internal/ubuntupro/ubuntupro.go and distributeConfig of
--                   windows-agent/internal/proservices/landscape/utils.go: one task for every distro.
--   UbuntuPro       windows-agent/internal/ubuntupro: ubuntupro.go and contracts/contracts.go.
--                   UbuntuPro.Fetching asks the Microsoft Store for a token.
--   WslInstance     windows-agent/internal/proservices/wslinstance: the clients, their handshakes, and
--                   the messages they send to the distros.
--   Ui              windows-agent/internal/proservices/ui/ui.go.
--   ContractClient  windows-agent/internal/ubuntupro/contractclient/client.go: the checks of the answers
--                   of the contract server.
--   CloudInit       windows-agent/internal/cloudinit/cloudinit.go: the files for cloud-init.
--   Landscape       windows-agent/internal/proservices/landscape. Landscape.Executor runs the commands
--                   of the Landscape server over the configuration, the database and the cloud-init files;
--                   Landscape.Download downloads an image and checks it; Landscape.DefaultUser is
--                   createDefaultUser and its package distroinstall; Landscape.Retry is retryConnection;
--                   Landscape.KeepConnected is the loop of service.go that connects. Landscape.HostConf
--                   and Landscape.HostInfo are what utils.go reads and tells of the host, Landscape.Client
--                   the listeners of service.go, Landscape.Connection and Landscape.Receiving
--                   connection.go, and Landscape.Controller controller.go.
--   NetWatcher      windows-agent/internal/daemon/netwatcher.go: the network adapters that are added.
--   AgentDaemon     windows-agent/internal/daemon: AgentDaemon.Buffer and AgentDaemon.Adapters are
--                   networking.go, and AgentDaemon.Serving is daemon.go.
--   ContextIdler    common/grpc/contextidler/contextidler.go: the idle timer of a stream.
--   ProService      wsl-pro-service/internal: ProService.Networking is system/networking.go, and
--                   ProService.Serve the loop of daemon/daemon.go. ProService.System is system/system.go
--                   and pro.go, ProService.Landscape is system/landscape.go, and ProService.Streams is
--                   the package streams with commandservice/commandservice.go.
--
-- How they interact: a database holds distros; a distro has a worker and a keep-awake counter; a
-- worker has a task manager, which has a queue of tasks and one of deferred tasks; the task loop takes
-- a task from the manager, holds the distro awake, waits for a connection, executes the task and
-- reports the result to the manager. The configuration notifies its listeners of every change, who
-- distribute tasks to the distros and make the Landscape client reconnect. A distro connects with
-- three streams that make a client, over which the agent sends what a task holds, and the service in
-- the distro applies it. The Landscape client receives commands, runs each and answers; its executor
-- starts, stops, installs and removes distros through the database, and stores the UID of the server
-- in the configuration.
--
-- How the code is rendered. A method is a function on its receiver's state; a mutex makes it one step.
-- Pull leaves a gap between two critical sections, and its steps are separate. A method of the task
-- manager is one step if it does not overlap with NextTask and EnqueueDeferredTasks, which do not take
-- its mutex; TaskManager.Overlap lets them run between two of its queue operations. A panic is `none`
-- or the outcome `panics`. Errors are values, and every fault of the file system, of the registry, of
-- WSL and of a connection is an argument, so a theorem holds for all of them. A channel is its
-- generation and its buffered notifications; a context is a number, live while its goroutine runs. A
-- counter of type uint32 wraps at 2 ^ 32; a theorem that needs a bound states it.
--
-- Bounds and fuel. waitForActiveConnection has the five rounds of the source. The loop of removeIf
-- recurses on the number of items it has left to visit, which is enough as each round visits one.
-- getAddrList has the ten rounds of the source. The
-- binary search of sort.Find has the number of entries as fuel, which is enough as each round leaves out
-- one entry at least. No other model has fuel: a loop that waits for the outside recurses on the list
-- of what it meets, one entry for each round.
--
-- What is not modelled: the text of logs and of wrapped errors; the clocks, whose ticks are
-- arguments; the YAML and ini libraries, SHA-512, net/http, gRPC and the GoWSL library, which are
-- parameters or whose answers are arguments; the loop of Connected in wslinstance.go and the manager in
-- proservices.go; New and Stop of the Landscape service and what watches its connection; the commands
-- that a distro runs; the streaming of logs and the other interceptors, which pass calls on to gRPC; the
-- command lines, the translations and the certificates, which call libraries; the generators, the mocks
-- and the end-to-end tests, and the code in Dart and C++.
pub mod AgentDaemon
pub mod ClientConfig
pub mod CloudInit
pub mod Config
pub mod ConfigSource
pub mod ContextIdler
pub mod ContractClient
pub mod Database
pub mod Distribution
pub mod Distro
pub mod Landscape
pub mod NetWatcher
pub mod Prelude
pub mod ProService
pub mod Processing
pub mod RegistryWatcher
pub mod StateManager
pub mod Storage
pub mod Task
pub mod TaskManager
pub mod TaskQueue
pub mod TaskYaml
pub mod UbuntuPro
pub mod Ui
pub mod Worker
pub mod WslInstance
