-- ===== src/Lib.antt =====
-- yatai-deployment: the operator that runs BentoML's BentoDeployment resources on Kubernetes.
--
-- The program has two parts. The API (apis/serving) declares the resource in four versions and converts
-- them to and from v2alpha1, the version that is stored. The reconciler (controllers) brings a resource's
-- objects in the cluster up to date: for the API server and for each runner of the Bento a Deployment,
-- an autoscaler and the Services, and one Ingress for the API server. Both talk to the cluster through an
-- API client and to other libraries; every such call is a parameter here, with the documented behaviour
-- that a theorem needs as a hypothesis.
--
-- Which file models which code:
--   Api/V2alpha1, V1alpha3, V1alpha2, V1alpha1, Common: the types of apis/serving. Api/Kube and
--     Api/Resources have the types of the libraries with the fields that the program reads or writes, and
--     Api/Consts the constants of yatai-common, which are a parameter.
--   Conversion/Hpa, Parts, Names, V1alpha3: apis/serving/v1alpha3/bentodeployment_conversion.go, that is
--     TransformToOldHPA, TransformToNewHPA, the environment variables and extra pod fields,
--     GetBentoNameFromBentoTag, ConvertToBentoRequest, ConvertToV2alpha1, ConvertTo and ConvertFrom.
--   Conversion/Older: the conversion files of v1alpha2 and v1alpha1. Conversion/Resources:
--     apis/serving/conversion/conversion.go.
--   Controllers/Debug and Resources: controllers/helper.go. Controllers/Names and Labels: getKubeName,
--     getKubeLabels and getKubeAnnotations of controllers/handleOthers.go, and the service names of
--     controllers/handleService.go. Hash: hash of controllers/helper.go.
--   Controllers/OldHpa: the second TransformToOldHPA, of controllers/helper.go.
--   Controllers/Objects: the code that handleService.go, handleHPA.go, handleIngress.go and
--     handleDeployment.go repeat for their kind of object: Get, then Create or, if the patch is not
--     empty, Update, with their events. Controllers/Objects/Frame and the other files named Frame say
--     what a method leaves as it is.
--   Controllers/Service, Hpa, Ingress, Deployments: controllers/handleService.go, handleHPA.go,
--     handleIngress.go, and the first half of handleDeployment.go (createOrUpdateOrDeleteDeployments,
--     createOrUpdateDeployment, generateDeployment).
--   Controllers/Pods: generatePodTemplateSpec of controllers/handleDeployment.go. Options has what it is
--     called with, Envs the environment variables, Serve the arguments and probes, Security the security
--     context, Sidecars and Proxy the other containers, Component the parts that depend on whether the
--     component is a runner, Containers and Template the whole. Template/Values has the tables that
--     its environment variables are compared with.
--   Controllers/CleanUp: doCleanUpAbandonedRunnerServices of controllers/handleService.go.
--   Controllers/Status: setStatusConditions and getYataiClient of controllers/handleOthers.go.
--   Controllers/Reconcile: Reconcile of controllers/bentodeployment_controller.go. Components is its part
--     that brings the objects up to date, Sync the part that tells the Yatai server, Loop the whole with
--     the conditions and the deferred function. Controllers/Watches: the two functions of
--     SetupWithManager that say which resources are reconciled after a change. Controllers/Timers: the two
--     goroutines that it starts, registerYataiComponent and cleanUpAbandonedRunnerServices.
--   YataiClient: yatai-client/client.go. Envoy: utils/envoy.go. Json: the JSON of the monitoring options
--     and of the runner map.
--   Decimal, Decimal/Atoi, Base: numbers in decimal and strconv.Atoi, Go's maps, texts, errors, and the
--     effects.
--
-- State. A method of the reconciler is a function from a World to a result and a World (Base/Effect). A
-- World has the cluster behind the API client, the recorded events, and the package's global variables.
-- What was written before an error stays written. An error is a value with its reason and its wrapping
-- texts; a run-time panic is a result of its own. The texts of events' messages, log lines and the
-- context are left out. A pointer or a map that may be nil is an Option. A Go map is an association list;
-- its order of iteration is not fixed, and the program only copies entries from one map to another.
--
-- The API client of one kind of object is a record of operations (Controllers/Objects.Kind), with the
-- contracts IsLawful: a successful create, update or delete changes what the cluster shows at one key, and
-- a read changes nothing. An object that a client writes may get more fields; Agrees says that it is
-- still as described. Of a request that fails IsLawful says nothing; where a theorem is about failures, its
-- contract is IsWholeOrNot (Controllers/Objects/Failure): such a request, for example one that timed
-- out, has been done whole or not at all. For an Ingress, IsIngressKind adds that a read returns the host
-- of the first rule as it is in the cluster. For the resource and its status, IsLawfulStatus
-- (Controllers/Status/Retry): a read returns what the cluster has; an update of the status writes the
-- status and a resource version that the server chooses, and a failed one has done so or nothing.
--
-- Fuel and bounds. Decimal counts digits on a fuel of the number and one, more than it has digits. The
-- tries of setStatusConditions are three, as in the source. All other recursion is structural. int32
-- and int64 values are integers; a conversion to int32 wraps around (Base/Int.int32), and strconv.Atoi
-- refuses what does not fit 64 bits. The other numbers are only copied and compared.
--
-- Not modelled: generated clients, informers and deep copies, the manager (main.go), the webhooks'
-- registration, the Helm charts and scripts, and controllers/bentodeployment_controller.bk.go, which is
-- commented out. Of SetupWithManager, the registration with the manager and the start of the two
-- goroutines, whose timer has no end: the model has the number of its ticks as an argument. The webhook
-- that calls the conversions between versions is not modelled.
pub mod Api
pub mod Base
pub mod Controllers
pub mod Conversion
pub mod Decimal
pub mod Envoy
pub mod Hash
pub mod Json
pub mod Tests
pub mod YataiClient
