-- ===== src/Lib.antt =====
-- msgs.js: message oriented programming for JavaScript. A bus (msgs.js) makes messages, channels and
-- handlers. A channel hands each message to its dispatcher (channels/dispatchers), which chooses
-- the handlers that receive it; a handler transforms it and sends the result to the next channel.
-- Aggregators (aggregators) are handlers that collect messages, and gateways (gateways.js) give the
-- sender of a message a promise of the answer. The STOMP translator (channels/translators/stomp.js)
-- prints messages as frames and reads them back, and the STOMP dispatcher
-- (channels/dispatchers/stomp.js) keeps the subscriptions of one connection.
--
-- The files, and the code that each models:
--   Base, Js      the shared names and lemmas; the values, strings, decimal prints, objects and regular
--                 expressions of JavaScript, and code that changes a state and may throw (Js.Effect)
--   Message       msgs.js: `counter`, `mixin`, `Message`, `mixin` of a message, `_message`
--   Dispatchers   channels/dispatchers: _subscribable.js, broadcast.js, unicast.js, direct.js,
--                 pollable.js and exchange.js, each as the file of its name; Exchange.Topical is
--                 `matchers.topical`
--   Aggregators   aggregators/batching.js and aggregators/correlating.js
--   Stomp         channels/translators/stomp.js: Frame is `build` and `parse`, Commands the others;
--                 channels/dispatchers/stomp.js: Client is what the dispatcher keeps and
--                 `sendCommand`, Dispatcher is `subscribe`, `unsubscribe`, `dispatch` and `destroy`,
--                 Server is what it does on the server's frames; Protocol is how a server reads the
--                 frames, and Histories and Requests are about calls in any order
--   Adapters      adapters: Sockets is webSocket.js, stream.js and messagePort.js, Redis is redis.js,
--                 Backbone is the inbound adapter of backbone.js, and Events is its outbound adapter
--                 and dom.js
--   Gateways      gateways.js: `inboundGateway`, on a bus of direct channels, and the transform of
--                 `outboundGateway`
--   Bus           msgs.js: Names is `alias`, `resolveChannel`, `resolveHandler` and `exportChannel`
--                 over a store of buses, Channel is `send` of `_channel`, Handler is `handle` of
--                 `_handler`, Chain is the transform of `chain`, and Kinds are the transforms of
--                 `forward`, `on`, `transformer`, `filter`, `router`, `splitter`, `aggregator`,
--                 `logger`, `outboundAdapter` and `inboundAdapter`; Optional is `optionalName`, and
--                 Taps are `tap` and `untap` of `_channel`
--   System        msgs.js, with the state of every bus, channel and handler of a program: Sending is
--                 `send` and what a channel's `send` calls, Subscribing is `subscribe`, `unsubscribe`,
--                 `tap`, `untap` and `receive`, Factories is the constructor, `bus`, `_handler` and
--                 the factories of channels (also channels/direct.js, pubsub.js, queue.js and
--                 exchange.js), Destroying is `destroy`, and Bridges is channels/bridges/stomp.js and
--                 how channels/dispatchers/stomp.js makes its control bus
--   Wire          wire.js: the channels factory; Plugin is `initialize`, `shutdown` and the
--                 resolvers, and Facet the facet that subscribes a component
--   Examples      runs on concrete inputs
-- The children of these modules are named for what they prove.
--
-- The modules beside System take what surrounds a component as parameters: a handler, a load balancer,
-- a tap, a topic's dispatcher and a user's function are any code that changes the rest of the
-- program's state, and may throw. System puts the components together: a channel's handlers are there
-- handlers of the same program, which send to its channels again. A function that changes what its
-- closure keeps takes the state and returns it (`Js W A`). What was written before a throw stays
-- written.
--
-- `out_of_fuel` is an outcome for code that does not end. The decimal print has more fuel than the
-- number of digits. The resolution of names may not end where aliases go in a circle; for a channel of
-- an ancestor, two calls more than there are generations between are enough. The sends of a program
-- are on fuel, which counts how deep handlers send and serves for the names too: for a gateway two
-- sends are enough, for a request and its answer, and a dead letter needs one for each generation
-- that it goes up. `destroy` of a bus is on fuel for the generations below it. The regular
-- expressions that the topical matcher makes are matched without fuel.
--
-- Third-party code is a parameter: the promises of `when`, and what registers a listener with a
-- socket, a stream, a port, a Redis client or a DOM node. So are, for the STOMP dispatcher, the
-- channels it sends to and its control bus, whose code may call the dispatcher again; and in System the
-- transforms of handlers other than `forward`, the load balancers, dispatchers that are made
-- elsewhere, and regular expressions in a syntax that the topical matcher does not write (`Services`).
-- The index of the random balancer, a product that the runtime rounds, is a parameter too.
--
-- Numbers are the non-negative integers and NaN. The keys of an object are enumerated as ES2015
-- says, and only own properties are modelled, so no key reads a property of Object.prototype.
-- `toUpperCase` changes the ASCII letters. A correlating aggregator sorts by sequence numbers that
-- are numbers, with a stable sort, and reads a `sequenceSize` that is a string as decimal digits.
-- Timers are those of the runtime: a timer that is pending may fire once.
--
-- In System a name that is an array or an error stands for its print, and a STOMP dispatcher is one of
-- the dispatchers made elsewhere: its tables are those of Stomp.
--
-- Not modelled: queues other than an array, and dispatchers of topics other than broadcasts; in
-- msgs.js, gateways.js and adapters the wrappers that only put defaults into the options; the files
-- that load the others together; tests and build files.
pub mod Adapters
pub mod Aggregators
pub mod Base
pub mod Bus
pub mod Dispatchers
pub mod Examples
pub mod Gateways
pub mod Js
pub mod Message
pub mod Stomp
pub mod System
pub mod Wire
