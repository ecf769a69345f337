-- ===== src/Lib.antt =====
-- Verification of the agent of camblet: its policies, its TLS library and certificate authority, the
-- session with the kernel module and its command handlers, tracing, the conversion of services, the
-- configuration, and the commands of the command line.
--
-- How the parts interact. The agent (internal/cli/cmd/agent/agent.go) validates its configuration
-- (pkg/config), loads policies and services and converts them for the kernel module
-- (internal/policy, internal/service), and answers the commands that the module writes to its device
-- (pkg/agent). Between the device, the handlers and the loaders stands a bus of topics. Requests for
-- certificates are signed by a certificate authority (pkg/tls). The commands of the command line
-- (internal/cli) start the agent, watch traces, generate policies and create authorities.
--
-- Which file models what, with paths from the repository's root:
--   Base        shared names; Result and Fallible stand for Go calls that may fail or panic, Assoc for
--               maps, Int for the conversions between integer types, Decimal for strconv.Itoa, Text
--               for the functions of package strings.
--   Policy      internal/policy. Types has the messages of api/v1/core/policy.proto and the types of
--               policy.go; Permutations is makeArrayPermutations of convert.go, Convert the rest of
--               that file; Subset is IsMapSubset, and Organize is Organize of policy.go; Loader is
--               file_loader.go and template.go.
--   Tls         pkg/tls. Types and Parser (Keys, Certificates, Blocks) are parser.go; Authority/Defs
--               is the loading of authority.go (NewCertificateAuthority, init), and Authority/Issue
--               its SignCertificateRequest and CreateIntermediate with util.go
--               (CreateCACertificate). Toy has stand-ins for the libraries, for the examples.
--   Agent       Messenger is pkg/agent/messenger; Commands is pkg/agent/commands, with Dispatch for
--               commands.go, Log, Augment and CsrSign for the handlers. Bus is the interface of the
--               bus, Kernel the messages that agent.go publishes for the module, with the goroutines
--               that watch the policies and services in Kernel/Loads, and Session the messenger and
--               the subscriptions around the bus. Trace is pkg/agent/api/v1/trace/trace.go and the
--               options of internal/cli/cmd/agent/trace.go, Trace/Client the rest of that file.
--   Service     internal/service: Convert is convert.go, Loader is file_loader.go.
--   Files       pkg/util/file_content_loader.go, with the loop over the events of its watcher in
--               Watch, and the loop over items that both loaders have.
--   Config      Settings is pkg/config/agent.go, Collectors and Kubernetes are
--               pkg/config/metadata/collectors, Environment is configuration.go and config.go of
--               pkg/config.
--   Cli         Terminal is internal/cli/cli.go and util.go, Root internal/cli/cmd/root.go. Of
--               internal/cli/cmd/agent, GeneratePolicy and Process are generate_policy.go and
--               augment.go, Authority is ensureCACertificate of agent.go, Commander its runCommander,
--               and Agent its flags, its start and its end. Ca is root.go and intermediate.go of
--               internal/cli/cmd/ca.
--   The modules under each of these hold the proofs, and Tests the examples of each.
--
-- State. A Go struct is a record with the words of its fields (`content` for the fields `Data`), a
-- pointer that may be nil an Option, a handler a function from a command and a state to an answer and
-- the next state. The published messages are lists in the order of publication.
--
-- Sessions. The goroutines of the messenger and of the subscriptions are a step function on one
-- state: the lines of the device that are not read, what was written to it, the queue of each topic
-- of the bus and the state of the handlers. A schedule is a list of moves, and every interleaving of
-- the goroutines that takes one message at a time is one.
--
-- Maps. A Go map is an association list without double keys, in the order in which a run ranges over
-- it; results hold for every order. Numbers are natural numbers, integers that may be negative are ℤ,
-- and the conversions that the code makes to 32 and 64 bits are written out.
--
-- Fuel. The odometer of makeArrayPermutations runs on one more step than the product has rows; the
-- loop of ParsePEMs on one more than the content has bytes, enough for a decoder that consumes what it
-- decodes; Organize on the depth of the egress policies, of which each round takes one.
--
-- Parameters. The libraries that the code calls are arguments: Crypto (encoding/pem, crypto/x509,
-- zcrypto), Platform (crypto/rand, crypto/rsa, crypto/tls, os, time), Formats and Json (encoding/json,
-- fmt, google/uuid), PolicyFormats, ServiceFormats, KernelFormats and TraceFormats (yaml, protojson,
-- the colours), Os (os, path/filepath), Watcher (fsnotify), Net (net, net/netip), TtlCache
-- (jellydator/ttlcache), Bus (werbenhu/eventbus), Viper (viper), Terminal (survey, go-isatty) and the
-- function that sort.SliceStable is. Hypotheses on them: the PEM decoder consumes what it decodes and
-- reads back what the encoder wrote, a parsed certificate keeps its DER, the sort permutes, answers
-- have a JSON encoding, a cache keeps what was set or touched, and a topic of the bus hands on what
-- was published in that order.
--
-- Not modelled: the interleaving inside one handler, which takes a message as one step; the text of
-- log messages; the device, files, sockets and the terminal themselves; the construction of the
-- commands of cobra and the entry points under cmd; the transport of gRPC; code that is generated
-- from the protocol buffers; spaces beyond ASCII around the paths of kubelet contents.
pub mod Base
pub mod Policy
pub mod Tls
pub mod Agent
pub mod Service
pub mod Config
pub mod Files
pub mod Cli
